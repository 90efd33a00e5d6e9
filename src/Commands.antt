-- ===== src/Commands.antt =====
-- wifi_management.c: cutting what a client sends into commands, and the table of commands. A handler
-- is a parameter: it gets the bytes from its command on and may write to them in place.
pub mod Resolve
pub mod Debug
pub mod Switches
mod Tests
use cvr_video.Base.{
  ℕ, zero, suc, List, [], ◌∷◌, Bool, true, false, ◌==◌, if◌then◌else◌, Option, none, some, length,
  drop,
}
use cvr_video.Base.Int.{ℤ, pos, negsuc}
use cvr_video.Base.Text.{codes, starts_with}

-- CMD_PREFIX
abbrev pub cmd_prefix : List ℕ
cmd_prefix = codes "CMD_"

-- The names of the table, in its order.
abbrev pub cmd_names : List (List ℕ)
cmd_names =
    codes "CMD_GETWIFI"
    ∷ codes "CMD_SETWIFI"
    ∷ codes "CMD_GETFCAMFILE"
    ∷ codes "CMD_DELFCAMFILE"
    ∷ codes "CMD_APPEARSSID"
    ∷ codes "CMD_ARGSETTING"
    ∷ codes "CMD_GET_ARGSETTING"
    ∷ codes "CMD_GET_PHOTO_QUALITY"
    ∷ codes "CMD_GET_SETTING_PHOTO_QUALITY"
    ∷ codes "CMD_GET_FRONT_CAMERARESPLUTION"
    ∷ codes "CMD_GET_BACK_CAMERARESPLUTION"
    ∷ codes "CMD_GET_FRONT_SETTING_RESPLUTION"
    ∷ codes "CMD_GET_BACK_SETTING_RESPLUTION"
    ∷ codes "CMD_GET_FORMAT_STATUS"
    ∷ codes "CMD_Control_Recording"
    ∷ codes "CMD_GET_Control_Recording"
    ∷ codes "CMD_RTSP_TRANS_START"
    ∷ codes "CMD_RTP_TS_TRANS_START"
    ∷ codes "CMD_LIVE_STOP"
    ∷ codes "CMD_CAMERA_CHANGE"
    ∷ codes "CMD_DEBUG_ARGSETTING"
    ∷ codes "CMD_GET_DEBUG_ARGSETTING"
    ∷ codes "CMD_Control_Photograph"
    ∷ codes "CMD_OTA_Update"
    ∷ codes "CMD_OTA_Upload_File"
    ∷ codes "CMD_GET_MODE"
    ∷ codes "CMD_CHANGE_MODE"
    ∷ codes "CMD_GET_GPS_LIST"
    ∷ codes "CMD_HEART"
    ∷ codes "CMD_GET_VIDEO_LIST"
    ∷ codes "CMD_SET_LIVE_VIDEO"
    ∷ codes "CMD_GET_LIVE_VIDEO"
    ∷ []

-- `struct type_cmd_func`; the handler gives the bytes as it leaves them.
pub record Command {ℓ} (S : Type ℓ) : Type ℓ where
  pub func : List ℕ → S → List ℕ × S
  pub cmd : List ℕ

-- strstr: the bytes from the place where the piece is found.
unfoldable pub text_from : List ℕ → List ℕ → Option (List ℕ)
text_from piece [] = none
text_from piece (c ∷ cs) =
    let rest = text_from piece cs in
    if c == 0 then none else if starts_with piece (c ∷ cs) then some (c ∷ cs) else rest

module _ {ℓ} {S : Type ℓ} where
  -- The first of the commands that the bytes start with.
  unfoldable pub find_command : List (Command S) → List ℕ → Option (Command S)
  find_command [] result = none
  find_command (c ∷ table) result =
      let rest = find_command table result in if starts_with c.cmd result then some c else rest

  -- The loop of cmd_resolve, on fuel; `left` are the commands that `i` has not passed. After a
  -- command, `i = 0` and the `i++` of the loop follow: the search goes on at the second command.
  unfoldable pub resolve_loop :
      ℕ → List (Command S) → List (Command S) → List ℕ → S → Option (ℤ × S)
  resolve_loop zero table left cmdstr s = none
  resolve_loop (suc n) table left cmdstr s = elim (text_from cmd_prefix cmdstr) [
    | none ↦ some (negsuc 0, s)
    | some result ↦ elim (find_command left result) [
      | none ↦ some (negsuc 0, s)
      | some c ↦
          let after = c.func result s in
          let next = drop (length c.cmd) after.0 in
          elim (text_from cmd_prefix next) [
            | none ↦ some (pos 0, after.1)
            | some _ ↦ resolve_loop n table (drop 1 table) next after.1
          ]
    ]
  ]

  unfoldable pub cmd_resolve : List (Command S) → List ℕ → S → Option (ℤ × S)
  cmd_resolve table cmdstr s = resolve_loop (suc (length cmdstr)) table table cmdstr s

  abbrev pub named : (ℕ → List ℕ → S → List ℕ × S) → ℕ → List (List ℕ) → List (Command S)
  named run n [] = []
  named run n (name ∷ names) = record { func = run n; cmd = name } ∷ named run (suc n) names

  -- The table, with the handlers by their places.
  abbrev pub cmd_tab : (ℕ → List ℕ → S → List ℕ × S) → List (Command S)
  cmd_tab run = named run 0 cmd_names

-- ===== src/Lib.antt =====
-- cvr-video: the camera application of a car video recorder.
--
-- The program is one process. Around the video pipeline, which is glue to hardware, stand components
-- with logic of their own; these are modelled here. They meet in few places: the acceleration sensor
-- hub (gsensor.c) hands samples to callbacks that other components register, among them the parking
-- monitor; device events reach the USB and SD component; the thermal governor turns other parts
-- down; the settings of parameter.c give the size of files; the modem sends the PDUs that the SMS code
-- builds; the storage check sets the clock at start; the record of a position goes to the track of a
-- video with the acceleration.
--
-- Which file is about which code:
--   Base: shared names, with Base/Tests (Boolean tests), Base/Lists (lists over the native numbers),
--     Base/Int (signed numbers) and Base/Text (C strings and the comparisons of string.h).
--   Thermal: power/thermal.c. The record of the device is `Device`; `Governor` adds what the handlers
--     change elsewhere. Sysfs has the readers and writers of the files, Levels the level machine
--     (temperature_get_state as `step_down` and `step_up`, thermal_handle_level0 to 5), Config
--     thermal_parse_cfg and thermal_init, Window and Updates and Throttle what holds of them. The
--     content of files and the number in a text are the parameter `World`.
--   Gsensor: gsensor.c. `Hub` has the state of the sensor and the table of 128 callbacks. Registry and
--     Withdraw are about gsensor_regsenddatafunc and gsensor_unregsenddatafunc, against a plain list of
--     places; Events and Samples about gsensor_readevent, Device about opening and closing. The
--     mutex makes each call one step.
--   Sms: ril/ril_ATSMS.c. Numbers (semi-octets), Septets (7-bit packing), Unicode (GB 2312 and UCS-2),
--     Pdu (sms_pdu_encode, AT_SmsSendTo), Charset (round trip of texts). The table of
--     ril/ril_GB2Utable.h is a parameter. A C string is the list of its bytes before the zero.
--   MsgList: msg_list_manager.c, a linked list on an explicit heap. Chain says which cells a heap
--     holds, Register, Remove, Detach, Unregister and Lifetime what the calls do, History what the
--     callers see after any sequence of calls. An access to a node that is not allocated is `none`.
--   Nmea: gps/nmea_parse.cpp, the messages of the GPS receiver. Nmea has the analysis of a field, Parse
--     the loop over the bytes, Fields the fields of a text and what the buffer holds, Messages the
--     loop against the fields, Clock the time and the day. Floats are the parameter `Numbers`. Track
--     is the record of a position in the track of a video, Dates its text of the date, Digits its
--     numbers, Axes its bytes of the acceleration; float operations are the parameter `Conversions`.
--   Gps: gps/gps_ctrl.cpp, the receiver. Gps has opening and closing, Users and History the modules that
--     share it, Files the writing thread, Lines and Reading the reading thread, whose lines go to the
--     parser of Nmea.
--   Parameter: parameter.c, the stored settings. Vendor has the access to the storage, whose driver is a
--     parameter with laws, Saves and Texts the functions that set values, Requests a call of one of
--     them as data, Effects what a call can do, Kept what the storage has after any calls, Init the
--     defaults and parameter_init, and Start what a start finds.
--   Commands: wifi_management.c and wifi_debug_interface.c, what clients send. Commands has the table
--     and the loop that cuts the bytes into commands, Resolve what becomes of them, Debug the debug
--     switches over the settings of Parameter, Switches their report. The fuel of the loop is the
--     number of bytes, and one more; each command takes at least one byte.
--   Parking: parking_monitor/parking_monitor.c. The thread is a place in its program and one step
--     from there, and the main thread a place in parking_unregister; an interleaving is a list of
--     turns. A pthread_join that has begun is taken to return when the thread ends, also after the
--     thread's pthread_detach. It registers with the hub of Gsensor. Floats are the parameter `Floats`.
--   Collision: collision/collision_algorithm.c and collision/collision.c. Extract has fre_extract,
--     Convolution its filter as a convolution, Decide the thresholds and decisions of collision_check,
--     Reports what is answered over a history of frames, Frames the collecting of ten samples. Floats
--     and doubles are the parameter `Floats`; the count of frames is a number without a bound.
--   Storage: storage/storage.c. Storage has the clock check at start, with setDateTime of settime.c,
--     Sizes the size of the files from the settings of Parameter, Align what ALIGN does to a word,
--     Bounds how large a file is. What fs_manage says of the paths is a parameter, and times stay
--     below the limit of time_t.
--   Uevent: ueventmonitor/ueventmonitor.c. `System` has its state, with the port of Usb and the governor
--     of Thermal that its handlers act on. Handlers has the handlers and parse_event, Split the cutting
--     of a message into strings, Safe the accesses of a handler, Overflow the copy of a card's name,
--     Card the timer of the card, and Exclusive who has the card over a history of events. An access
--     out of bounds is `none`.
--   Usb: ueventmonitor/usb_sd_ctrl.c and usb_mode.c. Sharing is about the card, which this device and
--     a PC must not have at once: who has it follows from what the file manager and the gadget driver
--     were told and answered, and a card that the file manager does not find is not mounted. Gadget
--     and Modes are about the functions of the port. `Host` is what file manager and kernel answer.
--
-- Functions keep their names in lower case. Loops over arrays and texts are recursion on a list, so
-- nothing runs on fuel, but the loops over the nodes of MsgList, whose theorems give fuel above the
-- number of nodes, the loop of Commands, and gsensor_readevent and the threads: these run on the list
-- of what they see, which is as long as the run that a theorem is about. What a function does to the
-- outside is a list of actions, the newest first, or a counter. A callback is a number, its address.
--
-- Not modelled: the video pipeline and the encoders (process, av_wrapper), the graphical interface
-- (ui), the copied libraries (ril/tinyalsa, wpa_ctrl.c, uvc/uvc-gadget.c), and code that only calls
-- the operating system. Also not modelled, though they have logic of their own: the transforms of
-- gps/coord_transform.cpp, which are float formulas, and the settings of the camera over the network.
pub mod Base
pub mod Thermal
pub mod Gsensor
pub mod Sms
pub mod MsgList
pub mod Nmea
pub mod Gps
pub mod Parameter
pub mod Parking
pub mod Storage
pub mod Commands
pub mod Collision
pub mod Uevent
pub mod Usb

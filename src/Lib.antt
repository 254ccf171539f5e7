-- ===== src/Lib.antt =====
-- The programs round one code reader: a server that streams its images and codes to web socket
-- clients, a program that saves its images, and a smaller camera class.
--
-- How the parts go together. broadcastTest.cpp has a camera object and a server. The transport's
-- thread runs the server's handlers, which fill a queue; a second thread empties it and turns the
-- commands into flags; a third one reads the flags, asks the camera for an image or a string and
-- sends it. SaveImage.cpp has one thread that copies frames into a buffer and one that writes the
-- buffer to files at the press of a key, with a mutex between them.
--
-- Which file models what:
-- - Base: lists, integers and printed numbers. Sdk: the calls of the vendor's library, of the C
--   library and of iconv, as an interface; each call is an event of a trace, and a reply may depend
--   on all the calls before it. Station: the members of `class Camera` (in SaveImage.cpp the
--   globals), and the monad of their functions, with undefined behaviour as a value.
-- - Server: `class broadcast_server` of broadcastTest.cpp (on_open, on_close, on_message,
--   process_messages, looping). Server/Registry: the map of connections. Server/Threads: the three
--   threads of `main`, as steps. Server/Modes: the machine of three modes behind the flags.
--   Server/Stages: a pass of `looping` in stages, with the other threads between them; what the commands account for then is in Commands, Budget and
--   Stopped, what ends the process in Crashes. Server/Drain: `process_messages` up to an empty queue.
-- - Camera: `init`, `InitResource` and `DeInitResources` of the camera in broadcastTest.cpp;
--   Camera/Codes: `GB2312ToUTF8`, `getData`, `resetData`; Camera/Image: `getImage`; Camera/Report:
--   `getString`, and in Camera/Report/Reader how a client reads its text.
-- - SaveImage: `InitResource`, `DeInitResources`, `PrintDeviceInfo` and a round of `GrabImageThread`
--   of SaveImage.cpp; SaveImage/Files: the three saves; SaveImage/Names: the
--   names of their files, read back; SaveImage/Leaks: the files and blocks that they open and make; SaveImage/Keys: `HandleKeyPress` and
--   `PressEnterToExit`; SaveImage/Program: `main`. SaveImage/Threads: the loop of `GrabImageThread`
--   and `HandleKeyPress` as steps of two threads, up to `pthread_join`; a save is one step from its
--   `lock` to its end, and Contents is also about where its reads stand in it. SaveImage/Threads/Copies and Whole are about the two buffers, Progress and Deadlock about
--   `pthread_join`, Typing and Return about how long the threads go on, Contents about the files, Calls
--   about the calls on the mutex, Rounds about the runs of SaveImage/Keys as runs of the two threads.
--   SaveImage/Ending: the end of `main`, for a user who only quits, and with saves (Keys, Sizes, Saves).
-- - Broadcast: the server with the camera filled in, as `looping` calls it. Broadcast/Program: `main`,
--   as its own thread goes through it; a server that serves keeps that thread in `run`.
-- - ClientServer: the earlier server of "broadcastTest copy.cpp"; ClientServer/Threads: the threads of
--   its `main`.
-- - CameraLib: the class of CameraLib.cpp, which has the text of the camera in broadcastTest.cpp but for
--   a line that is printed and `getImage`, whose scale is 0.1 and not 0.2.
-- - StillCamera: `InitResource`, `init` and `DeInitResources` of Camera2.cpp;
--   StillCamera/Picture: `bufferToImage` and `getImage`; StillCamera/Program: `main` and `capture`.
-- - DisplayCamera: the class of Camera.cpp, and its `main`. Pointers: the two pointers of a camera that
--   is a local object, as it is in Camera.cpp and Camera2.cpp, before they have a value.
-- - Sample and the modules called Tests: values to run examples on.
--
-- Bounds. Sizes wrap at 2 ^ 32, the count of codes at 2 ^ 8, an `int` sum at 2 ^ 32 with its sign;
-- text buffers have 512 bytes. Loops are structural: over the codes of a frame, over the keys that
-- are typed. The two endless loops of the server are modelled by one round each, and run for ever
-- by the step relation; a loop or a wait of SaveImage.cpp that never ends is a value of its own.
--
-- Each handler, and each access to the map of connections, is one step: the races of `std::map` and of
-- the flags below that are not modelled. Nor are: what is printed; the transport and OpenCV, which
-- are parameters; `getString` of Camera2.cpp, whose call of `getData` has a wrong type and does not
-- compile; what `capture` does after it has read a pointer without a value; and "SaveImage copy.cpp",
-- which has the text of SaveImage.cpp.
pub mod Base
pub mod Sdk
pub mod Station
pub mod Sample
pub mod Camera
pub mod Server
pub mod SaveImage
pub mod ClientServer
pub mod StillCamera
pub mod Broadcast
pub mod Pointers
pub mod DisplayCamera
pub mod CameraLib

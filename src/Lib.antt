-- ===== src/Lib.antt =====
-- Wii-Sec-U: a Wii U played over the network, with up to four controllers and the TV's picture and
-- sound streamed back. The program's parts and the files that model them:
--   * protocol/wsu_protocol.h, the wire format that all parts share: Protocol/Types (structs and
--     limits), Protocol/Pack (the wsu_pack functions), Protocol/Parse (the wsu_parse functions, over
--     the reads of Protocol/Wire; a memcpy is a read of each of its bytes). A buffer is the list of its bytes, so that its length is `len`; a
--     parser ends in `ok`, in `reject` for -1, or in `fault` for a read past the end.
--   * pc/src/core/frame_assembler.cpp, which puts frames together from slices: Assembler. `feed` returns
--     the new state and the frame that the callback gets, if one is complete; Assembler/Datagrams is about
--     the way from datagrams to it.
--   * pc/src/core/input_hub.cpp, the host's four controllers: Host/InputHub.
--   * pc/src/host/session_server.cpp, the remote players' clients: Host/Session, with `tick` for the
--     sweep and `receive` for a datagram. It writes the slots of the hub.
--   * pc/src/host/wiiu_link.cpp, the host's links to the console: Host/Link.
--   * pc/src/host/host_app.cpp, the host program, which wires these together: Host/App.
--   * pc/src/net/udp_socket.{h,cpp}, the addresses, their text and the sockets: Endpoint, Endpoint/Text,
--     Endpoint/Socket.
--   * pc/src/video/frame_decoder.cpp and the StatsSink of video_sink.h: Display; sdl_display_sink.cpp, the
--     sink with a window: Display/Window. Display/Inbox and Display/Sound are what that sink and the
--     graphical program's do alike.
--   * pc/src/input, the controllers of a player: Controller.
--   * pc/src/gui, the graphical program: Gui/App (gui_app.cpp, with the screens and the loop in
--     App/Run), Gui/Settings, Gui/SharedInput (shared_input.h) and Gui/View (gui_video_view.cpp); Gui/Log
--     is its log panel with pc/src/util/log.h.
--   * wiiu/common/wsu_wiiu.h, what both plugins share: Console.
--   * pc/src/client/client_app.cpp, the remote player's program: Client.
--   * wiiu/input-plugin/src, the console's controller injection: InputPlugin/RemoteInput
--     (remote_input.h), InputPlugin/NetThread, InputPlugin/Settings and InputPlugin/Applications
--     (main.cpp, with the start, the socket and the end of its thread; Life is what holds of these),
--     and InputPlugin/Injection (injection.cpp), with Injection/Buttons for the button tables and
--     Injection/VpadRead for the hooks.
--   * wiiu/stream-plugin/src, the console's streaming: StreamPlugin/Net (net.cpp), StreamPlugin/Audio
--     and Audio/Tap (audio.cpp), StreamPlugin/Capture (capture.cpp), StreamPlugin/Encoder
--     (encoder.cpp), with StreamPlugin/Surface for the slots and the queue between those two, and
--     StreamPlugin/Settings and StreamPlugin/Life (main.cpp, with the starts and stops of the others).
--     Encoder/Session is about the capture hook and the encoder thread in any order.
--   * pc/src/main.cpp, the command line: Command.
--   * pc/src/sim/console_sim.cpp, the console that the host is tested with: Sim.
-- EndToEnd, InputPlugin/Relay, Client/Join, Client/Handshake, Host/App/Relay and Display/Picture
-- are about several parts at once: a frame from the console to a receiver, a controller from the
-- host to the console, a client's join, its input and its view of the stream, the stream through
-- the host to a client, and the simulator's picture through the decoder. Base holds the helpers,
-- Tests the concrete inputs.
--
-- A loop that waits for datagrams is given as the function for what it does before a receive and the
-- one for what it does after it; the clock and the datagram are arguments, and the datagrams sent are
-- part of the result. A mutex makes the operation under it one step. netSendVideoFrame takes its mutex for
-- each packet, and has what the network thread does before each of them as an argument. Times, sequence numbers and frame
-- ids wrap at their width, written as remainders. Loops over arrays are recursion on the list or on
-- the number of rounds left, so that no fuel is needed; the digits of a printed number are bounded by
-- ten, which a 32-bit number has at most.
--
-- Not modelled: what the operating system, the console SDK, the plugin system, SDL and Dear ImGui do
-- (drawing, the menus, init and shutdown of the graphical program), the socket code for Windows, the
-- starts of threads but for what they set up, printing, and the copies of other projects' libraries.
-- What the code relies on of these is a parameter: float arithmetic and the SDK's constants in
-- Injection, libjpeg, the heap and the message queue in the capture and encoder models, stb_image in
-- Display, SDL's textures and audio device in Display/Window and Gui/View, the results of the system
-- calls in Endpoint/Socket and Console, and what sscanf makes of a number too large in Endpoint/Text.
pub mod Base
pub mod Protocol
pub mod Sim
pub mod Assembler
pub mod Endpoint
pub mod StreamPlugin
pub mod EndToEnd
pub mod Tests
pub mod Host
pub mod Client
pub mod Display
pub mod Command
pub mod Console
pub mod Controller
pub mod Gui
pub mod InputPlugin

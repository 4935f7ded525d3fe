-- ===== src/Lib.antt =====
-- The board program of the SocChina camera (board/src and board/include, C): it captures
-- video, corrects the exposure and the colours through the ISP, and serves H.264 over RTSP.
--
-- The parts modelled here meet in the control thread, `control_worker` of board/src/main.c.
-- Parameters that the control socket and the touch menu push into a slot
-- (board/src/app_control.c) are drained by the thread; each round it reads the statistics of
-- the ISP, asks the refresh filter of board/src/control.c whether the scene has changed,
-- decides the exposure mode, and runs the network. The network's LUT is packed and limited by
-- board/src/lut_bridge.c and loaded into the ISP; repeated failures degrade the thread to the
-- rule-based Gamma. Apart from this, the encoder hands each access unit to
-- `rtsp_server_publish_h264` of board/src/rtsp_server.c, which sends it to the client as RTP
-- packets.
--
-- Files and code:
--
-- - Prelude.antt: tests on numbers, lists and bytes that all parts share.
-- - Floats.antt: the C type float, a parameter of the models; Floats/Thousandths.antt is an
--   instance on which they run.
-- - Control.antt: board/src/control.c. Control/Decide.antt has control_decide and
--   control_should_refresh_lut, Control/Health.antt control_health_init and
--   control_health_record, Control/Feedback.antt control_feedback_init, _observe and _commit.
-- - AppControl.antt: board/src/app_control.c. AppControl/Mailbox.antt has the slot, with
--   merge_pending, app_ctrl_push and app_ctrl_drain; AppControl/Settings.antt has what
--   control_worker keeps of the parameters, and the interleavings of pushes and drains.
--   Json.antt has find_key and the parse_ functions, Line.antt read_line, Request.antt the
--   body of handle_client, Serve.antt its loop with app_ctrl_init, _worker, _stop and _deinit;
--   Framing, Ranges, Bounded, Ids and Replies are about what they do.
-- - LutBridge.antt: board/src/lut_bridge.c. LutBridge/Pack.antt has the order of the nodes and
--   the banks, LutBridge/Bridge.antt lut_bridge_pack, LutBridge/Identity.antt
--   lut_bridge_make_identity, which Cube and Unchanged are about, LutBridge/Limit.antt
--   limit_component and lut_bridge_limit_packed_step; Approach and Near are about how far a
--   LUT moves.
-- - Pipeline.antt: board/src/pipeline.c. Pipeline/Config.antt has pipeline_config_defaults,
--   pipeline_config_validate and pipeline_state_name, Pipeline/Valid.antt what a valid
--   configuration is.
-- - Worker.antt: control_worker of board/src/main.c. Worker/State.antt has its variables, the
--   counters and the calls it makes; Worker/Cotf.antt the transaction of the CoTF path;
--   Worker/Poll.antt a round of the loop, from the parameters to the last branch, and the
--   loop. Ledger, Degraded, Near and Stale are about its runs.
-- - Rtsp.antt: board/src/rtsp_server.c. Rtsp/State.antt is rtsp_state_t, Rtsp/Send.antt
--   send_nonblock_locked, Rtsp/Packet.antt send_rtp_packet_locked and send_nalu_locked,
--   Rtsp/Annexb.antt find_start_code and rtsp_server_publish_h264, Rtsp/Publish.antt is about
--   its units. Rtsp/Request.antt has process_request and the texts it sends, Rtsp/Consume.antt
--   consume_client_data, Rtsp/Server.antt accept_client, server_thread, rtsp_server_start and
--   rtsp_server_stop; Sane, Handling and Steps are about their runs. Rtsp/Receiver.antt is an
--   independent receiver; the other files carry the proofs.
-- - Drivers.antt: board/src/display.c, capture.c, vpss.c and stream.c. Drivers/Journal.antt
--   has the journal of what is brought up and of the calls to take it down, with their
--   answers; Display.antt, Camera.antt (capture and VPSS) and Stream.antt the life cycles,
--   Drain.antt drain_worker; Rollback, Channel and Units are about them.
-- - App.antt: main of board/src/main.c. App/Life.antt has the steps of the start,
--   Shutdown.antt the cleanup and the whole life; Layers, Orderly and Ends are about it.
--   StreamLoop.antt has stream_worker, and Pace is about that. Options.antt reads the command
--   line, and Commands is about that.
-- - Menu.antt: board/src/menu_render.c. Menu/Font.antt is its font, Menu/Paint.antt the
--   drawing primitives, Menu/Layout.antt the colours, the layout and menu_hittest,
--   Menu/Render.antt menu_render_into; Inside, Drawn and Hit are about them.
-- - Touch.antt: board/src/touch.c and the touches in the loop of main. Touch/Panel.antt has
--   touch_open and touch_poll, Touch/Menu.antt what a touch does to the menu; Screen and
--   Pushes are about them.
-- - The Tests.antt (and SessionTests.antt) in a folder runs the definitions on concrete
--   inputs.
--
-- State is passed explicitly: a C function that changes a struct is a function from the record
-- to the record, with its answer beside it. A C call of the drivers, the network or the socket
-- is an answer that the environment gives, one for each call: `Answers` for a round of the
-- thread, `SendEvent` for a call of send, `RecvEvent` for one of recv. A NULL pointer is
-- `none`, a field with a `has_` flag is an option, and an unsigned word keeps its wrap-around.
-- The touch panel's `int` wraps too, where C leaves an overflow open.
--
-- Recursion follows the lists of rounds, observations, slot operations and socket outcomes.
-- The loops of the packetiser run on fuel that is the length of the data, which is enough
-- because each turn consumes a byte at least, and so does the loop over received requests.
--
-- Not modelled: the pixels that stream_worker converts, the display loop, the CTBG kernels,
-- the LVGL interface. Sleeping, logging and the times in the counters have no counterpart.
pub mod Prelude
pub mod Floats
pub mod Control
pub mod AppControl
pub mod LutBridge
pub mod Worker
pub mod Pipeline
pub mod Rtsp
pub mod Drivers
pub mod App
pub mod Menu
pub mod Touch

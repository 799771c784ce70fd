-- ===== src/Lib.antt =====
-- Verification of the core of baresip, a modular SIP user agent.
--
-- The program. A user agent keeps a list of calls and registers with a server; the group of user
-- agents decides which of them a request is for. A call is driven by the user and by the SIP
-- session of libre, and has streams, which its directions and hold switch on and off. A call's
-- media arrives as RTP packets. The jitter buffer puts them in order and decides when each one is
-- played; the receivers of audio and video extend the 32-bit timestamps; a metric counts the
-- traffic of a stream. The user steers the program through the command interface, to which the
-- modules register their commands, and dials numbers that are cleaned up first. The contacts say
-- who may call; a registration client keeps the user reachable, and listeners get the text
-- messages. These parts are modelled here, each from its C file:
--
--   Prelude       shared names, tests on numbers, lists, machine words and integers
--   Stream        src/stream.c: directions, hold, update, the switches of sender and receiver, the RTP
--                 timeout; Hold and Timeout hold the proofs
--   Call          src/call.c
--     Streams       call_modify, update_media, mnat_handler and the error handlers of the media
--     Control       call_connect, call_answer, call_progress, call_hold, call_hangup, digits
--     Session       the handlers of the SIP session, call_accept
--     Transfer      the handlers of REFER and of its subscription, sipsess_close_handler
--     Events        digits that are heard, redirection, the RTP timeout
--     Lines, Alloc  line numbers, searches, call_alloc
--     Steps         what happens to a call, as steps, and what its log says
--     Quiet, Notices, Machine, Holding, Ending, Queue, Numbers
--                   proofs
--   Ua            src/ua.c: registration and extensions; Calls has the searches, answer, hold and
--                 hang-up, Register the proofs
--   Uag           src/uag.c: hold and resume among all calls; Find has the choice of the user agent
--                 for a request and the request handler; Choice, Active and Others hold the
--                 proofs
--   Account       src/account.c
--     Words, Decode, Codecs, Complete
--                   the printed modes, the decoders, the lists of codecs, account_uri_complete_strdup
--                   with its proof
--     Modes, Limits proofs
--   Serreg        modules/serreg/serreg.c, on the user agents of Ua; Next and Checks hold
--                 the proofs
--   Jbuf          src/jbuf.c
--     State         struct jbuf, struct packet, struct jbuf_stat as records
--     Seq, Clock    sequence number distance; calc_playout_time, adjust_due_to_jitter,
--                   adjust_due_to_skew
--     Pool          packet_alloc, packet_deref, jbuf_alloc, jbuf_flush and the setters
--     Put, Get      jbuf_put; jbuf_get, jbuf_drain, jbuf_next_play
--     Frame, Accept, Alloc, Splice, PutCases
--                   what the parts of these operations leave alone, and their ways
--     Invariant, Run, Ordered, Sorted, Ownership, Handover, Contents, Late, Nack, Playout
--                   proofs, named for what they prove
--   Timestamp     src/timestamp.c, update_rtp_timestamp of src/video.c and the timestamp part of
--                 aurecv_receive of src/aureceiver.c; Epoch and Receive hold the proofs
--   Metric        src/metric.c; Counters and Bitrate hold the proofs
--   DialNumber    clean_number of src/dial_number.c; Clean holds the proofs
--   Cmd           src/cmd.c
--     State         struct cmd, struct cmds, struct cmd_ctx as records
--     Registry      cmd_register, cmd_unregister, cmd_find_long, cmd_find_by_key, get_match_long
--     Editor        cmd_process, cmd_process_edit, cmd_process_long, editor_input
--     Lookup, Typing, Completion
--                   proofs
--
--   Contact       src/contact.c: contact_add, contact_remove, contact_find, contact_block_access and
--                 the setters
--     Find, Valid, Add, Keeps
--                   proofs
--   Reg           src/reg.c: register_handler, reg_register, reg_unregister, reg_stop, reg_isok;
--                 Status holds the proofs
--   Message       src/message.c: request_handler, handle_message, message_listen, message_unlisten, and
--                 uas_req_auth of src/ua.c; Replies and Listeners hold the proofs
--
-- How the models correspond to the code. A structure is a record with the fields of the C
-- structure, a function of the C code a function of the same name without its prefix where the
-- module already says it. A call that changes state returns the new state with its result; a read
-- through NULL or a division by zero is the result none; traces, with what they compute, are left
-- out. Words of 8, 16, 32 and 64 bits are natural numbers with the wrap-around written out; signed
-- values are integers that are cut to their width. Lists of libre are lists from the head. A
-- payload is a number, and the calls of mem_ref and mem_deref are recorded in the order from the
-- last one. Each reading of the clock is an argument of the call that makes it. Loops are
-- structural recursion, but for the two loops over the names of codecs of an account: these have
-- as much fuel as the list of names has characters, since each round takes one at least. An
-- operation of a call appends what it asks of others to the log of the call; the event handler of
-- the user agent runs behind the operation, not inside of it.
--
-- Parameters. The code of libre is not part of this repository: rtp_seq_less, str_casecmp,
-- str_isset, re_regex, re_hprintf, the growth of a memory buffer and the handlers of commands are
-- arguments of the definitions that use them. The properties that need more of them name it:
-- SeqOrder for the sequence numbers, CaseCompare and Compares for the strings, Scans for re_regex,
-- Works for prints and memory. What contacts take from libre is the record Libre, what a
-- registration gets from the client of libre the record Outside; a call gets the answers of libre,
-- of the media and of the listeners to one operation in a record Outside, too, and an account has
-- a record Libre.
--
-- Not modelled: log and trace output; locks (an operation of a buffer or a metric is one step
-- here; in the code it holds its lock, but for the SSRC check at the start of jbuf_put, which
-- comes before the lock and has a lock of its own in jbuf_flush); computations on floating point
-- numbers; the menu and the event handlers that call these parts; in serreg.c what calls
-- ua_register, since the handler of its events runs in the middle of these loops; the printed list
-- of commands; and these parts of the program: the smart match of contacts, bundles, the RTP
-- receiver, configuration, network, codecs and devices.
pub mod Prelude
pub mod Jbuf
pub mod Timestamp
pub mod DialNumber
pub mod Metric
pub mod Cmd
pub mod Contact
pub mod Reg
pub mod Message
pub mod Stream
pub mod Call
pub mod Ua
pub mod Uag
pub mod Account
pub mod Serreg

-- ===== src/Lib.antt =====
-- libgate: the part of a building's access control that talks to the door controllers over a
-- serial line. Commands become frames (an opening byte, a device type, the escaped command with its
-- checksum, a closing byte); one frame is on the line at a time, and the next one goes out when a
-- reply or a timeout comes in. While no command waits, the devices are asked for cards in turn.
--
-- Base: the names of the standard library that all files use, Boolean tests, buffers, C integers.
-- A buffer is a function from places to bytes; a write outside of a buffer is the outcome `fault`. Writes
-- behind the 256 places of `devices` are not found: they need a number of devices above 255, which
-- `cmd_set_max_dev` does not allow.
-- Codec models src/gp_util.c and the macros of src/libgate.h: the checksum (Codec.Crc), byte stuffing
-- (Codec.Escape), integers and hexadecimal text (Codec.Integer, Codec.Hex), decimal bytes (Codec.Bcd).
-- The machine is little-endian.
-- World is what the library asks of the operating system. Every answer is a function of all requests
-- before it, so a theorem holds for every behaviour of clock, port, memory and database.
-- Gate models the structures of src/gp_layer.h and src/libgate.h and the global variables as one record,
-- and the functions that change them as actions on it (Gate.Action), which return, end the process by
-- `exit`, or run into undefined behaviour. Fields that only log output reads are left out.
-- Gate.Active has what the loops over the devices that answer come to.
-- Port models src/gp_port.c, with the settings of the terminal in Port.Terminal. Link models
-- `gp_resend`, `gp_send` and `gp_send_idle` of src/gp_layer.c, and Queue models src/gp_queue.c; each
-- function keeps its name. Queue.Fifo states what the queues
-- promise, as two lists of commands, and Queue.Service shows that the code does it.
-- Target models src/ad_target.c: Target.Control has the functions that make a device act,
-- Target.Memory those that read and write its memory, Target.Order lists them all as data, and
-- Target.Queued has what they add to the queues. Clock models the dates of src/gp_util.c.
-- Database models src/db_layer.c, with the parameters in Database.Params; Database.Tables and
-- Database.Cursor state what the database library documents, and Database.Quiet has the requests that
-- change no table. Command models src/ad_cmd.c: Command.Tokens gives cards to the devices,
-- Command.Memory clears and reloads a device, Command.Schedule saves schedules, and Command.Devices has
-- the rest. Processor models src/gp_processor.c: Processor.Poll is
-- `cb_get_poll_result`, Processor.Log is `cb_log_read`, Processor.Input is `process_port_input`; the
-- callbacks of the application are a parameter. Receive models `gp_receiv` of src/gp_layer.c, and
-- Receive.Scans what it does with all devices; a reply can come in at once (Receive.Arrival), in
-- pieces (Receive.Pieces) or never (Receive.Silence); Receive.Swipe has what the replies about a card
-- come to, and Receive.Answer what an acknowledgement or a refusal does. Adapter models src/adapter.c, a program that runs the library.
-- Safety puts these parts together: what keeps the state in order (Safety.Line, Safety.Sending,
-- Safety.Commands, Safety.Poll, Safety.Log, Safety.Replies, Safety.Arrival, Safety.Port), and what can come to the library from the event loop
-- (Safety.Run). Samples has the machine that the tests run on.
--
-- The loops of the codecs run over a length. The loop of `gp_send_idle` has the number of devices and
-- one more as its fuel, since each round goes on to the next device; its theorem excludes that the
-- fuel runs out. The loop of `cmd_clear_dev` has 341 rounds, one above the number of its blocks. The
-- loop of `cmd_reload_dev` ends with the cursor; its fuel is an argument, and more than the number of
-- tokens is enough.
--
-- Not modelled: the texts of the log, the set-up of the timers of the event library, `log_init` and
-- `signals_init` of src/adapter.c, functions that only return 1, a cursor of the database that cannot be
-- made, and a number of devices above 255.
pub mod Adapter
pub mod Base
pub mod Codec
pub mod World
pub mod Gate
pub mod Port
pub mod Link
pub mod Queue
pub mod Target
pub mod Clock
pub mod Database
pub mod Command
pub mod Processor
pub mod Receive
pub mod Safety
pub mod Samples

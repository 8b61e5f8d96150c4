-- ===== src/Lib.antt =====
-- The Arma 3 extension of the radio addon (addon/extensions/task_force_radio_pipe/src): it answers
-- the game's calls, keeps what the game tells about players, radios and masts, decides what is
-- heard, and speaks with the voice relay.
--
-- Parts, and the files that model them (source paths are below
-- addon/extensions/task_force_radio_pipe/src):
--   Base, Base/...      helpers: Boolean tests, lists over native numbers, bytes, integers, and
--                       association lists for the maps of the C++ library
--   Float, Float/Fixed  `float` and the C functions on it as an interface, and one instance of it,
--                       in thousandths with NaN, for the examples
--   Util, Util/...      Util.cpp: split, splitLimit, isTrue, parseArmaNumber, convertNickname
--   Geometry            Util.cpp: Vec3, parseVec3, distanceUnderwater, the volume and angle maths
--   State, State/...    State.h and State.cpp. State/Data is the members of class State and its
--                       structs; State/Parse the parsers; State/Handlers and State/World the
--                       handle... functions; State/Queries what the commands and the tick read and
--                       set; State/Solver with Paths and Snapshot the audibility solver
--                       (addAudibleForClientLocked, computeAudibleUnits). Proofs:
--                       State/Solver/Heard, State/Solver/Rules, State/WellFormed with its children,
--                       State/Feeds, State/Life
--   Command, Command/.. CommandProcessor.cpp: process, processSync, processAsync, and the grace
--                       period of the not-connected answer
--   Protocol, Proto../  Voice/Protocol.cpp: truncateUtf8, PacketWriter, PacketReader
--   Voice/Dsp, ...      Voice/Dsp: the filters and their cascades (Dsp, Stages), the delay line
--                       (Delay), RadioEffectChain.cpp (Chain), Panning.h
--   Voice/Source, ...   Voice/RemoteVoiceSource.cpp: the queue; Mixdown is the decoder and the mix
--                       over the paths, Frames tryProduceNextFrame, Render the render callback.
--                       Proofs: Jitter, Talkspurt, Slots, Rendered, Kept, Sound, Playing, Cue
--   Resource, Res../    what is held of the system: the calls that get, use and give back; code with
--                       early returns that makes them. Ownership and Values are its rules
--   Log, Log/Hex        Voice/Log.cpp: logLine, toHex
--   Voice/Device, ...   Voice/AudioDeviceUtil.cpp, and what the device sessions of the microphone and
--                       of the speaker share (Loop). Proofs: Owned, Switched
--   Voice/Mixer, ...    Voice/PlaybackMixer.cpp: the map of sources, the cues; findBeepClip. Chunk
--                       is generateChunkLocked, Device the filling of the device's buffer, Session
--                       runDeviceSession and threadMain. Proofs: Filled, Kept, Owned, Written, Played
--   Voice/Capture, ...  Voice/WasapiCaptureEngine.cpp: packets to frames of 960 samples; Session is
--                       runDeviceSession, Thread threadMain, Supervision what it counts between the
--                       sessions, for both device threads. Proofs: Frames, Owned, Switched
--   Voice/Session, ...  Voice/VoiceSession.cpp: rosters, cache of transmissions, audibility
--   Voice/Network, ...  Voice/VoiceNetworkClient.cpp: Network builds and reads the packets,
--                       Network/Handshake is tryHandshake, Network/Thread a round of threadMain with
--                       its parts, Network/Socket the sockets and hashes of both. Proofs: Packets,
--                       Receive, Connection, Outage, Owned, Tracked, Closed, Sockets
--   Voice/Workers, ...  start and stop of VoiceSession.cpp and of the threads it owns
--   Voice/Transmit, ... Voice/TransmitController.cpp: the gate of the microphone; Samples is its
--                       frames, with NoiseSuppressor.cpp and the encoder of OpusCodec.cpp
--   Tick, Tick/Relay    Extension.cpp: the relay of our transmission in senderMain, the local cue
--   Extension, Ext../   Extension.cpp: RVExtension and parsePort; World is all that the extension
--                       keeps but for the capture engine's buffers, Sender a turn of senderMain,
--                       Threads the threads' steps on it and their interleavings.
--                       Proofs: Linked, Delivered, Rounds, Reachable, Override
--   Tests, Tests/...    examples at concrete inputs
--
-- How they interact (Extension/Threads puts it together): the game's thread calls Command, which
-- changes State and reads a little of the session. The tick takes what State says we transmit
-- (Tick/Relay), hands the solver's rows to Voice/Session and the others' transmissions to
-- State/Queries. The network thread's rounds call the session's `on_` functions, which fill the
-- sources that Voice/Source plays; Voice/Transmit hands its frames to Voice/Network.
--
-- How it is modelled: a text is a list of byte codes. A member function that changes its object is
-- a function from the object to the object. The clock is a number of nanoseconds that a caller
-- passes in, and 0 stands for a default time_point. A lock makes each operation one step, so an
-- interleaving is a sequence of operations; in Extension/Threads a call of the game, a tick, a
-- round of the network, a frame of the microphone and a fill of the device are one step each. An
-- exception is `none`, in place of the result only where a throw leaves changes behind.
-- `std::unordered_map` iterates in an order that the standard leaves open; the association list
-- fixes one.
--
-- Loops: `split` and `splitLimit` run on fuel equal to the text's length plus one, `truncateUtf8`
-- on the text's length, which is enough since each turn moves on by at least one byte; the
-- theorems below say so by giving the result. `wrapPi` subtracts a full turn until the angle fits;
-- its model has fuel for two turns, and a difference of two bearings needs one. The receive pump
-- counts to 256 as the source does. The render loop has as much fuel as frames are wanted, since
-- each turn writes one at least; the loop that tops up the mix has two turns more than the cursor,
-- since each adds 960 frames. The microphone's resampler has its fuel as an argument: it ends
-- within the number of steps that carry the cursor past the samples, which is a hypothesis on the
-- arithmetic of double.
--
-- Parameters: float and double with their functions (Float); the Opus codec, RNNoise, the draws of
-- the library's random engine, and the tables of the clips' samples. The theorems hold for all of
-- them.
--
-- The system: a call of Windows is no code of the repository. Whether it succeeds, and what it
-- tells, is an argument where it is made; what is kept of it is which resource it gives, needs or
-- takes back (Resource). A device loop has its waits, and a thread its sessions or turns, as an
-- argument: the end of that list is where the thread is asked to stop.
--
-- Not modelled: the lines that are logged, but for how one is written; the copies of Opus and
-- RNNoise, and the set-up of a codec; the SQF addons, and the relay, which is a program of its own in
-- C#. A round of the network thread takes the outcome of a handshake as an argument;
-- Network/Handshake computes it from what the sockets answer, and Network/Socket from the answers of
-- the calls that open them.
pub mod Base
pub mod Float
pub mod Util
pub mod Geometry
pub mod State
pub mod Command
pub mod Protocol
pub mod Voice
pub mod Tests
pub mod Tick
pub mod Extension
pub mod Resource
pub mod Log

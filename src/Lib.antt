-- ===== src/Lib.antt =====
-- The TRTC-ASR C++ SDK: a client of a speech recognition service. An application makes a credential
-- (include/trtc_asr/credential.h), sets the options of a recognizer, and starts it; the recognizer
-- validates the options (src/params.cc), signs in with a UserSig (src/usersig.cc), builds the query string
-- (src/signature_params.cc, src/sdkinfo.cc), dials a WebSocket (src/ws_client.cc), and reads responses
-- (src/types.cc) in a thread of its own, which calls the application's listener (src/speech_recognizer.cc).
--
-- Which file models which part:
--   Common       errors (include/trtc_asr/errors.h) as values, byte strings, integers, words and bits
--   Encoding     src/usersig.cc: Base64, Sha256 and UserSig; names as in the code, in snake case
--   Json         the vendored JSON library, as a record of operations that every client takes
--   Params       src/params.cc: the validators; Doubles holds the `double` options and their text
--   Query        src/signature_params.cc, src/sdkinfo.cc, src/json_helper.h: ToMap is `to_map`, a run of
--                assignments to a sorted list of items; the two BuildQueryString functions join the items
--   Credential   include/trtc_asr/credential.h: HostForSite and the endpoints
--   Response     include/trtc_asr/types.h and src/types.cc: the records and ParseSpeechResponse
--   Http         src/http_client.cc: HttpPost
--   Run          what a call comes to that may write through a null pointer
--   Loops        what the three loops that wait on a clock share
--   Ws           src/ws_client.cc: Frame is EncodeWsFrame, Transport is ReadExact, Reader is Read,
--                Sending is WriteAll with SendText and SendBinary, Url is ParseWsUrl, Uuid is GenerateUuid,
--                Upgrade is the upgrade in Connect
--   Recognizer   src/speech_recognizer.cc: Reader is the reader thread with DispatchEvent, Lifecycle is
--                Start, Write, Stop and the destructor, Options is the configuration, ValidateOptions and
--                Connect
--   Offline      Sentence is src/sentence_recognizer.cc, with DoRequest and ParseApiEnvelope of
--                src/file_recognizer.cc in Offline itself; Create is the creation of a task, Task
--                its status, and Polling the loop that waits for it
--   V3           src/v3.cc: Checks holds its validators, Api the requests over HTTP, with Sentence, Task and
--                Status; Realtime is the options and the start frame, Handshake the acknowledgement,
--                Client is Start, Write, Stop and the destructor, and Reader the reader thread, which share
--                the state and the steps of the version 2 client
--
-- How state and failures are modelled:
--   A call that throws gives a `Result`. The state that the threads of a recognizer share is a record;
--   `Lifecycle.Step` is the relation of atomic steps of all threads, cut where a lock is taken or an
--   atomic variable is exchanged; the calls `start`, `write`, `stop` and `destroy` are functions, a branch
--   for each way they can go.
--   The reader thread is a function of the frames that Read returns, each with what Stop did meanwhile,
--   and of the exceptions that the listener throws; it logs each callback with the state it observes.
--   The socket is a list of events, one for each round of ReadExact: bytes, a deadline, a failure;
--   so are the rounds of WriteAll.
--   Locks, callbacks that call back, and spurious wakes are covered by the interleaving; the wait of Stop
--   is its outcome, in time or not. The join of a destructor has a value only where the reader thread ends:
--   the session ends by itself, its connection is closed, or it is stopped. The JSON library's dump throws on
--   a text that is not UTF-8, and so do ToMap and all that build on it. A start of the version 3 client is given what its handshake comes to,
--   and the handshake what the wait for the acknowledgement comes to; that wait is a loop of its own, on
--   what Read returns in each round and on the clock. A null pointer that is written through is a third
--   outcome of a call, beside a value and an exception.
--
-- Bounds and fuel:
--   Words are numbers with their wrap-around written out. A frame takes two bytes at least, so Read has a
--   fuel of the bytes that may still come and one more. Sha256 takes at least
--   one byte a round, and pads at most 64 zeros. The polling of a task, of either version, takes a fuel of
--   the timeout's milliseconds and two, for an interval of one or more. The head of an upgrade's response
--   is at most 65,536 bytes, one a round, for a fuel of 65,538.
--   The wait for an acknowledgement takes a fuel of rounds: it is enough when an idle poll comes late
--   enough among them.
--
-- Parameters: the JSON library, zlib's compress2, OpenSSL's SHA1, the TCP connection and the TLS handshake,
-- random draws, the clock, the dial, the HTTP answer, printf's %g, std::to_string of a double. Texts of
-- errors that come from the operating system (errno, TLS codes) are left out of a message of Read.
--
-- Not modelled: sockets, TLS and the SIGPIPE guard (src/ws_client.cc, src/sigpipe.cc), and the options
-- that HttpPost sets in libcurl.
pub mod Common
pub mod Encoding
pub mod Json
pub mod Params
pub mod Query
pub mod Credential
pub mod Response
pub mod Recognizer
pub mod Offline
pub mod Run
pub mod Loops
pub mod Http
pub mod Ws
pub mod V3

-- ===== src/Lib.antt =====
-- sshclient-sftp-wasm: SSH and SFTP in the browser over pluggable transports. The library is an SSH
-- client in Go, compiled to WebAssembly, and JavaScript around it; this development is about the
-- JavaScript.
--
-- The parts. A transport carries the bytes of an SSH connection. SecureTunnelTransport of
-- lib/aws-iot-tunnel.ts carries them through AWS IoT secure tunneling: messages of three protocol
-- versions, encoded by the classes of lib/aws-iot-tunnel/protobuf-messages.js, in frames with a
-- length of two bytes, over a WebSocket. The transport queues what it is given until a handshake
-- ends, and takes the stream that the socket delivers apart again. SSHClient registers a transport
-- with the WebAssembly module through TransportManager, connects it, has the module shake hands over
-- it, and closes it; an SFTPHandle asks the module for file operations.
--
-- The files.
--   Base           shared names, tests on numbers, lists by native length, 32-bit integers
--   Wire           the Writer and Reader of the package protobufjs, as a parameter with laws; IsLocal
--                  is the law for readings with more bytes behind them
--   FixedWire      an instance of it, which shows that the laws can hold
--   Messages       lib/aws-iot-tunnel/protobuf-messages.js: V1, V2, V3 hold `create`, `encode` and
--                  `decode` of ProtocolV1Message to ProtocolV3Message (the switch of `decode` is
--                  `read_field`), Fields the loop and the field writers that they share, Delimited the
--                  forms with a length in front, Props the object given to `create`, Class the choice
--                  of a class by the version; RoundTrip, Skips, Total, Streams and AnyClass hold proofs
--   Plain          `verify`, `fromObject`, `toObject`, `toJSON` and `getTypeUrl` of the same classes,
--                  in V1, V2 and V3, and of TunnelMessage of lib/tunnel.js in Tunnel: Value holds the
--                  values of JavaScript, Util the package protobufjs, Checks the tests of `verify`,
--                  Fields the assignments of the other two; Names, Back, RoundTrip, Verified and
--                  Verdict hold proofs
--   Tunnel         lib/aws-iot-tunnel.ts: State the configuration and the fields of
--                  SecureTunnelTransport, Url `buildWebSocketUrl`, Outgoing `send`, `sendDataFrame`,
--                  `sendControlMessage`, `sendFrame` and `processQueuedMessages`, Incoming
--                  `handleIncomingData`, `handleMessage` and `disconnect`, Lifecycle `connect` and
--                  the handlers that it gives to the socket, for a socket that has been replaced
--                  too; Pipe and the files below it the abstract pipe that the transport refines;
--                  the other files hold proofs
--   Client         lib/errors.ts in Errors (`wrapSSHError`), TransportManager of lib/transport.ts in
--                  Manager, its callbacks in Bridge, its methods where they overlap in Interleaved,
--                  SSHClient of lib/index.ts in Api: `connect`, `getServerFingerprint`, the methods of
--                  a session and the static ones; Program says how promises are read, State what the
--                  client holds and what it calls, Operations the calls of its owner; the other
--                  files hold proofs
--   Sftp           lib/sftp.ts in Handle (SFTPHandle), its methods where they overlap in Overlap, and
--                  in Base64 its `toBase64` with PacketTransformer of lib/index.ts and the btoa and
--                  atob of JavaScript; the other files hold proofs
--   Startup        `initialize` of lib/index.ts: Assets the options, `detectFramework` and
--                  `getAssetPaths`, Initialize the loading, Overlap the calls that overlap, Entries
--                  the functions of lib/index.ts, lib/next.ts and lib/vite.ts that call it; the other
--                  files hold proofs
--   Sockets        WebSocketTransport and CustomTransport of lib/transport.ts in files of these
--                  names; the other files hold proofs
--   Legacy         TunnelMessage of lib/tunnel.js, with the loop of Messages/Fields
--   Frameworks     ViteConfig of lib/vite.ts, NextJSConfig of lib/next.ts in NextConfig; SshConnection
--                  and SshInit the states of `useSSHConnection` and of `useSSHClient` of lib/react.ts,
--                  with `withSSHClient`, VueInit the one of `useSSHClientVue` of lib/vite.ts, Rendering
--                  proofs
--   Tests          runs at concrete inputs
--
-- How the code is translated. An object is a record of its fields, a method a function on it. What
-- a method does to the world (the socket's calls, the owner's callbacks, the promise of `connect`)
-- is appended to a list of effects, in the order of the calls. `receiveBuffer` stands beside the
-- other fields, since only `handleIncomingData` touches it. A Uint8Array is a list of numbers, and
-- in Sockets a view of a buffer; a string is the list of its UTF-16 code units. An absent property
-- of a message is `none`, and reading it gives the default of the prototype.
--
-- Loops. `decode` and `handleIncomingData` run on fuel that is the number of bytes left, which is
-- enough since every round takes a tag, or the two bytes of a length. `sendDataFrame` has the number
-- of bytes to send as fuel, since every chunk takes one at least. The laws of the wire that the
-- theorems assume are what protobufjs documents: a read takes back what a write appended, no read
-- gives bytes back, and a number takes at most ten bytes.
--
-- An asynchronous method of the clients is a program: it passes a state along and comes to a value or
-- an exception. What the transports, the WebAssembly module and the session of the module answer is
-- a parameter, any function of the calls so far; the calls are recorded in the state. Between two
-- awaits of a method nothing else happens in the model, save in Client/Interleaved, Sftp/Overlap and
-- Startup/Overlap, where a call is cut at its awaits and any others come between. Base64 is encoded
-- in rounds of 32768 bytes, with the number of bytes as fuel. How many arguments a call may have is up
-- to the engine: it is a parameter of PacketTransformer.toBase64, which spreads a whole array into
-- one call, while a call with the 32768 arguments of lib/sftp.ts is taken to succeed. Reading
-- `process.env.NODE_ENV` comes to an answer of the page or to an error, as in a page without
-- `process`.
--
-- A value given to `verify` or `fromObject` is one of JavaScript's kinds of values, and the plain
-- object has the keys that the code reads. The coercions of the language that run methods of a value
-- (to a number, to a string) are parameters, and so are `util` and its base64 of protobufjs.
--
-- Not modelled: logging; a callback that throws, or that calls the transport it is called from;
-- a code unit outside ASCII in a service id, which the laws of the wire leave open; an option of
-- `initialize` that is present and undefined. The race of events in `loadWasmExecutor` is the
-- parameter that answers its request, which has the timeout. `toProtobuf` and `fromProtobuf` of
-- PacketTransformer give their argument back; SSHClientProvider of lib/react.ts hands a state on
-- through a context. The Go code (main.go, sftp_bindings.go, pkg/sshclient) is another language;
-- public/wasm_exec.js is the Go runtime.
pub mod Base
pub mod Wire
pub mod FixedWire
pub mod Messages
pub mod Legacy
pub mod Tunnel
pub mod Startup
pub mod Sftp
pub mod Sockets
pub mod Frameworks
pub mod Client
mod Tests
pub mod Plain

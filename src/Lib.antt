-- ===== src/Lib.antt =====
-- sp2p: the tracker node, tracker/qmake_project, the client library, sercli/src, and the program
-- that works with the library from a command line, node_client/src.
--
-- The tracker keeps accounts, networks, the servers of a network, invitations and signed keys in a
-- PostgreSQL database, and the cookies of logged users in memory. A client opens a TLS connection,
-- sends one framed protobuf message and gets one framed answer.
--
--   Connection      connection.{hpp,cpp}: the callbacks of one connection. A callback is a function of
--                   the connection and of the tracker's state; what it asks of the socket is its
--                   Action. Service: what a client gets for a request.
--   Wire            requestparser.cpp, request.cpp, response.cpp: the length prefix and the outcomes
--                   of `parse`, over the reads of one connection. Framing: its theorems.
--   Handler         requesthandler.{hpp,cpp}: World is the tracker's state (database and sessions),
--                   Env what the libraries and the system answer while one request is handled.
--                   Accounts, Networks and Servers have the sixteen handlers, Dispatch the switch.
--                   Valid, Access, Login, Passwords and Privacy: theorems.
--   Message         proto_files/sp2p_protocol.proto (Client, Node) and proto/nodemessagefactory.cpp
--                   (Factory).
--   Session         sessioncontroler.{hpp,cpp}: the two maps and every method. Invariant, View and
--                   Expiry: theorems; View is the specification, a partial map from cookies.
--   Db              database/db_init.sql (Schema) and db/psqlconnector.cpp: Statements are the SQL
--                   statements on the tables; Connector the transaction around a statement; Users,
--                   Networks and Servers the methods; Calls the methods that write, as data.
--                   ForeignKeys and Uniqueness: the constraints of the schema as invariants.
--   Sercli          the client library, sercli/src. Types: sp2p_types.hpp, user.hpp. MessageFactory:
--                   message_factory.cpp. Parser: parser.cpp, with Splitting and Bounds. Connection
--                   and ConnectionManager: connection.cpp, connection_manager.cpp, handler.cpp;
--                   Exchange joins the client's connection to the tracker's. Encryption:
--                   encryption.cpp. Node: node.cpp and nodeconnection.cpp, where Peer is what an
--                   operation meets outside the node (Account and Networks hold the operations).
--                   Calls: any operation as a step of the node's state. Network and Manager:
--                   network.cpp, manager.cpp; nodes and networks are objects with an identity, and a
--                   saved file is the list of what was written into boost's archive. Crypt: the
--                   encrypted file of data.cpp.
--   NodeClient      node_client/src/context.hpp and main.cpp. Context: the contexts as objects, with "cd"
--                   and "pr" (Navigation). Options: the options of the commands. State: Client is what
--                   the contexts keep, Command a step that changes it and may throw. Basic,
--                   NodeCommands, NetworkCommands and Sp2pCommands: the handlers, each a definition
--                   with the command's name, and their tables. Scanning and Start: the constructors.
--                   Loop: a line's words, the dispatch and run_program_loop. Main: main. Steps: what
--                   is shown of every handler, by the way it is put together (Reads, Careful, Final,
--                   Keeps). The handlers work on the objects of Sercli.Manager, and a node's
--                   operation is the one of Sercli.Node.
--   Util            utils/util_functions.cpp and constants.h.
--   Prelude         shared names, list lemmas, texts, maps, integers.
--   Tests           a small tracker, and each theorem with hypotheses at work on it.
--
-- A method of the source keeps its name in snake case (getLogin is get_login), and a method that
-- changes an object returns the changed object. A result `none` of a handler or of a method of the
-- session table stands for what C++ leaves undefined (the read of a publicity that was never set is
-- that) and for an exception that nothing catches. A call of the database has a Link, which says
-- whether the connection served the transaction, broke before the commit, or lost the answer to it;
-- `pqxx::failure` comes from the last two and from the constraints. Values of type char(n) are kept
-- without trailing blanks, and comparisons ignore these.
--
-- In the client library a Reply `none` is an exception that leaves an operation or a null pointer
-- that it follows, and then the node is as it was: a connection that the operation had made is not
-- kept. A SendException that the operation catches is a `none` of the peer's answer. The stop of a
-- connection that fails has taken place when an operation ends, and the timer that closes an idle
-- connection is a step of its own, between two operations. `disconnect` throws in its log line, on
-- a socket that was never opened: stopping an active node is an exception. A file that is written
-- goes through an ofstream that nothing asks whether it opened: `opens` says of a path whether it
-- does, and where it does not nothing is written and nothing is reported.
--
-- In the program of node_client a command is a function of the whole state with an exception as a
-- value; what it changed before a throw stays changed. What it prints is a list of lines, where the
-- help is given by its headings. A shared pointer is the identity of an object, and an object is
-- alive where the manager or a context points to it. The exceptions that run_program_loop does not
-- catch are one value, uncaught; a null pointer that is followed and an array that is read past its
-- end are another, undefined. Printing a network that the tracker listed is undefined too: its
-- `visability` was never set.
--
-- There is no fuel: every loop of the modelled code runs over a list (the lines that are typed are
-- one), a number of characters or a count that a saved file gives. Lengths on the wire are natural
-- numbers, with the conversion to `int` written out; ports and times are integers, where the
-- database accepts what the model accepts.
--
-- Parameters: protobuf's parsing and serialisation, rand(), the clocks (the database's in whole
-- seconds), bcrypt, the certificate authority and the state of the database connection; for the
-- client also Botan's encodings and ciphers, which paths can be opened for writing, boost's reading
-- of addresses, std::to_string and whether a connection is made; for node_client also
-- program_options, the regular expressions, the listing of a directory and the typed passwords.
-- What is relied on of them stands as a hypothesis of the theorem that does.
--
-- Not modelled: TLS, sockets and the size of the read buffer; logging; the start of the server
-- (main.cpp, server.cpp) and the object factories. Requests are handled one after another: main.cpp
-- runs four threads over one database connection, and their interleaving is not modelled. Gaps in
-- the sequences of ids and errors of text encoding are left out. Of the client library,
-- setDataManager, the acceptor (server.cpp), asyncUpdateServer and asyncConnect are not modelled,
-- nor is the timer's handler within a running operation. Of node_client the echo of the terminal,
-- the log and the signal set, to which no signal is added, are left out. The generated protobuf
-- code is not modelled.
pub mod Prelude
pub mod Util
pub mod Session
pub mod Db
pub mod Message
pub mod Handler
pub mod Wire
pub mod Connection
pub mod Sercli
pub mod NodeClient
pub mod Tests

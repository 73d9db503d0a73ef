-- ===== src/Lib.antt =====
-- The mail server and its storage, modelled from the C++ sources.
--
-- The SMTP server (apps/smtp-server) accepts mail. A sockets manager turns what happens on the
-- connections into events. The server keeps one SmtpSession for each connection; the loop pushes
-- events into it and hands out at most one of its events at a time as a task of a thread pool. The
-- task runs SmtpSessionHandler on the session's state, which answers through the sockets manager and,
-- at the end of a message, stores it in the database in one transaction. The storage library
-- (libs/mail-storage) wraps SQLite: messages, their actors (the sender and the recipients with their
-- delivery status) and users. Between two rounds of events the QueueDispatcher claims the
-- recipients that are due and hands each to the pool as a delivery, which marks it delivered if it is
-- an active local user and failed if it is not, and settles the message when no recipient is left.
--
-- The HTTP mail server (apps/mail-server) has a router from method and path to handlers, which read a JSON
-- object, call MailStorage over the same repositories, and answer with JSON: accounts (register,
-- login), mailboxes (list, star, archive, delete) and the sending of mail, for which it is an SMTP
-- client (libs/smtp-server-sdk) of the SMTP server. Before it serves, MigrationRunner brings the
-- database up to date. The thread pool (libs/thread_pool) runs the tasks of the SMTP server. The
-- mail client (apps/mail-client) shows pages of mails, keeps the accounts of the storage with one of them
-- active, and caches lists of mails in a table of their own.
--
--   Smtp/Text, Smtp/Base64      the helpers of apps/smtp-server/src/smtp/SmtpSessionHandler.cpp: Trim,
--                               ToUpper, ExtractPathArgument, DecodeBase64, ParsePlainAuth
--   Smtp/Config                 ServerConfig.hpp and Configuration.cpp: Load, Validate
--   Smtp/AuthService            AuthService.cpp: AddUser, Authenticate
--   Smtp/State                  Event.hpp and the state of Session.hpp; the world a handler acts on
--   Smtp/Store                  SmtpSessionHandler::StoreMessage
--   Smtp/Handler                SmtpSessionHandler::HandleEvent; each branch of HandleMessageReceived is
--                               a function, in Handler/Transaction (MAIL, RCPT, DATA, RSET and the
--                               lines of a message), Handler/Auth (AUTH) and Handler/Greeting (HELO,
--                               EHLO, STARTTLS, QUIT)
--   Smtp/Session                Session.cpp: PushEvent, TryExtractNextTask, ProcessEvent
--   Smtp/Dispatcher             QueueDispatcher.cpp: Poll, Deliver
--   Smtp/Server                 Server.cpp: RunOnce
--   Storage/Records             the records of libs/mail-storage/include/mail_storage
--   Storage/Database            Database.cpp and Statement.cpp
--   Storage/Rows                the clauses of SQL on lists of rows
--   Storage/Actors              MailMessageActorRepository.cpp, its mailbox flags in Actors/Mailbox
--   Storage/Messages            MailMessageRepository.cpp
--   Storage/Users               UserRepository.cpp
--   Storage/Migrations          MigrationRunner.cpp; its files in Migrations/Files
--   Client/Mail                 MailBuilder.cpp and SmtpResult.h of libs/smtp-server-sdk
--   Client/Wire, Client/Send    SmtpClient.cpp: ReadReply, SendCommand; SendMailMessage, CheckConnection
--   Http/Config                 Configuration.h and MailServerConfigurator.cpp of apps/mail-server
--   Http/Json, Http/Message     values of JSON, and Common.h
--   Http/World                  what the handlers act on; MailServerLogger::Log
--   Http/Router                 Router.h
--   Http/MailStorage            MailStorage.cpp
--   Http/Handlers               src/handlers and MakeRouter of Main.cpp; a handler is in Mailbox,
--                               Accounts or Sending, and the helpers that read requests in Reading
--   Pool                        libs/thread_pool/src/ThreadPool.cpp
--   Desktop/Pages               EmailPageProxy.cpp of apps/mail-client/models
--   Desktop/CurrentUser         CurrentUser.cpp
--   Desktop/Accounts            AccountListModel.cpp
--   Desktop/Cache               CacheStore.cpp; its LIKE in Cache/Like
--   Desktop/MailCache           EmailCache.cpp
--   Base                        lists, tests and bytes; nothing of the program
--
-- Smtp/Protocol describes the protocol independently of the handler: the invariant of a session, the
-- lines that a client writes, and the message that they transfer. Smtp/Session/Order is the step
-- relation of the server loop and a worker. Storage/Actors/Steps has the moves of a delivery status,
-- and Storage/Messages/Settled the agreement between a message and its recipients, which
-- Smtp/Dispatcher/Agreement carries through polls and deliveries. Http/Mailboxes says what a request may
-- change, Client/Dialogue what a client sends whose commands are all accepted, and Pool/Order the
-- invariant of the pool.
--
-- State is passed explicitly. A handler takes a SessionState and a World (the database, the calls made
-- on the sockets manager, the log) and returns both with the exception it may have thrown. Text is a
-- list of bytes. A statement of SQL is a function on the tables of a Db; whether SQLite carries a
-- statement out is not decided by the program, so a Db holds an oracle, `faults`, that says for each
-- statement to come whether it fails: a theorem without a hypothesis on it holds for every failure, and
-- past its end no statement fails. A transaction keeps the tables from its beginning in `saved`; a
-- failed statement leaves the tables alone. The mutexes make each repository call, and StoreMessage,
-- one step. Machine integers: the 32-bit buffer of DecodeBase64 is kept modulo 2 ^ 32, its `bits`
-- counter is written 8 higher so that it is never negative, the port is reduced to 16 bits, and a limit
-- below zero is written as zero, which the code treats alike. Sizes and row ids are unbounded. All
-- loops are structural; only the decimal digits of a number take fuel, one more than the number, which
-- has fewer digits.
--
-- A handler of the HTTP server takes a World and returns a response or an exception with the World it
-- leaves; the random pool is a counter of the blocks taken. A socket of the SMTP client has an oracle of
-- faults as the database has; each read takes one piece of what the peer has sent. The pool is a step
-- relation on the queue, the flag and the workers, with the tasks accepted, begun and ended. Ids of
-- messages in requests are 64-bit integers: one above 2 ^ 63 wraps to a negative one, which matches no
-- row. ParseVersion is modelled on unbounded numbers, with the range of long as a test.
--
-- Parameters: what the property tree of Boost holds (Smtp/Config), the authentication service that a
-- session calls (Context), for which Smtp/AuthService is one implementation, the reading and printing of
-- JSON (JsonText), Argon2, the hex codec and the random pool (Crypto), the SMTP peer of the client
-- (Peer), what SQLite makes of a migration script and the file system (Platform),
-- the files and the conversions of Qt (Files, Conversions) and the calendar of the cache (Calendar). The time, the events
-- that the sockets manager gives, and whether the thread pool takes a delivery are inputs. Where a
-- theorem relies on the hex codec, its hypothesis says that the decoder undoes the encoder and that the
-- code has digits only.
--
-- Not modelled: Boost.Asio and the sockets manager's threads, Boost.Beast and the connections of the HTTP
-- server, the start and the stop of the SMTP server, the opening of the database, the screens of the mail
-- client (apps/mail-client) and those of its models that are not named above, the HTTP client library
-- (libs/mail-server-sdk) and the logger's file. The mail server and the SMTP server may be configured with the
-- same database file: what one of them writes between two statements of the other is not modelled.
pub mod Base
pub mod Smtp
pub mod Storage
pub mod Http
pub mod Client
pub mod Pool
pub mod Desktop

-- ===== src/Lib.antt =====
-- POP3SF, a POP3 server framework (src/pop3sf): a model of the server and its laws.
--
-- A client's thread (pop3sf/ClientHandler.py) reads lines from its socket, hands each to a command
-- handler (pop3sf/ClientCommandHandler.py), and sends the answer that the handler raises
-- (pop3sf/SendDataToClientException.py). The handlers reach the mailbox through
-- pop3sf/AdapterHelperWrapper.py, which calls an adapter (pop3sf/adapters), and log in through
-- pop3sf/PerUserExclusivityEnsurer.py, whose list all threads share.
-- pop3sf/POP3SF.py accepts the connections and starts the threads. The tools that write the mailboxes
-- are in auxiliary_libs. Paths that start with pop3sf are below src/ of the repository.
--
-- Prelude            numbers, lists, sorting and tests that all modules use
-- Text               Python's `str`: splitting, joining, line breaks (pop3sf/Auxiliaries.py); a text
--                    is the list of its code points. Text.Encoding is `encode` and `decode`,
--                    Text.Decimal `int` and `str` of numbers, Text.Order the order of texts;
--                    Text.Utf8 and Text.Numbers: decoding and reading take back encoding and printing
-- Response           SendDataToClientException and POP3ResponseCodes; Response.Reader is a client's
--                    reading by RFC 1939, which is not part of the program, and Response.Received what
--                    it makes of the bytes
-- Ensurer            PerUserExclusivityEnsurer
-- Adapter            the interface of adapters/AdapterBase.py; Adapter.Actions: actions on any state;
--                    Adapter.Stays: sets of states that an action does not leave
-- Settings           the options read
-- Globals            GlobalResources (pop3sf/GlobalResources.py)
-- Session            ClientStatusHolder and ClientConnectionInfoHolder as a record, and the monad of
--                    actions on a thread's world: an action returns or raises and keeps its writes
-- Helper             AdapterHelperWrapper, and authentication_successful of ClientStatusHolder;
--                    Helper.Listing describes a mailbox and the adapters that show one
-- Commands           ClientCommandHandler, one function for each `_command_...` method
-- Client             ClientHandler; Client.Receiver: reading from the socket; Client.Sharing: the threads
--                    of several clients over the ensurer's list, as a step relation, with what holds of
--                    it in its Reading; Client.Unbuilt: a
--                    thread whose status cannot be constructed, as with Settings.get_adapter unedited;
--                    Client.WithoutQuit: lines none of which is QUIT
-- Locking            AdapterThreadLockingWrapper, over the adapter's state and a record of the calls on
--                    the lock; Locking.Threads: threads that share the lock and the world behind the
--                    adapters, as a step relation. That a thread which waits gets the lock at some
--                    time is left to the threading library
-- Adapters           AdapterAuxiliaries and what all adapters share. Adapters.ListAdapter: ListAdapter;
--                    Adapters.Mysql: MySQLAdapterBase and, in Users, its two subclasses, over a
--                    database that is a parameter; Adapters.Directory: DirectoryAdapterBase and, in
--                    Users, its two subclasses, over the file system of Adapters.Files; their Creation:
--                    the constructors
-- Server             POP3SF; Server.Startup: the constructor, with the rest of Auxiliaries;
--                    Server.Sockets: ServerSocketInfoHolder; Server.Main: pop3sf.py, the start script
-- Tools              MultiuserAdapterToolBase; Tools.Directory and Tools.Mysql: the four tools;
--                    Tools.Tables: constructing the database tools; Tools.Agreement and
--                    Tools.Delivery: what the adapters make of what the tools write
-- Tests              sample worlds and the theorems at concrete inputs
--
-- An attribute that is written is a field of `ClientStatus`; a method is a function of the same name
-- without the leading underscore, and the part of a method behind a test is a function of its own
-- where the proofs go by it. Python's `raise` is the result `raised`, and the exceptions that the
-- program tells apart are the constructors of `Exception`.
-- The Unicode database (upper case, decimal digits), bcrypt, SHA-256, email.mime and dates are
-- parameters. `to_decimal` recurs on fuel, one more than the number that it prints.
-- The answers of the operating system to the calls on a client's socket (`recv`, `poll`, `sendall`,
-- `close`) are a script in the thread's world. Behind the script `recv` gives no bytes for ever, as it
-- does once the client has closed its side. The loop over a client's lines takes fuel, and more of it
-- than `recv` has answers is enough, since a round takes at least one, and a read without bytes closes
-- the connection. That a thread can be started is taken for granted.
-- The operating system's answers to the server (which events `poll` gives, what `accept` gives, which
-- threads live) are a script too, and so are the random names of the tools' files.
-- Whether constructing a client's status raised is an argument of its thread.
-- Not modelled: log messages and loggers, the lists of the abstract methods of the tools' base classes,
-- creating the directory when a directory tool is constructed, the lock around Settings.get_adapter, the
-- garbage collector, time stamps, and Python's limit on the length of the numbers that `int` reads. The
-- commands use the ensurer's list directly, not through the getter of GlobalResources.
pub mod Prelude
pub mod Text
pub mod Response
pub mod Ensurer
pub mod Adapter
pub mod Settings
pub mod Globals
pub mod Session
pub mod Helper
pub mod Commands
pub mod Client
pub mod Adapters
pub mod Locking
pub mod Server
pub mod Tools
mod Tests

-- ===== src/Lib.antt =====
-- A model of the program of this repository: a web server that is configured by an nginx-like file
-- (request.cc with what it includes), and the programs that came before it.
--
-- The parts, and how they work together. `main` of request.cc parses a configuration file
-- (config_parser.cc), takes the port and one map for each handler from it, and serves. For each
-- connection `session` reads once, gives the bytes to the request parser (request_parser.cc), looks
-- for the first handler whose path stands in the URI, lets it make a response (EchoHandler.cc,
-- StaticHandler.cc, Not_Found_Handler.cc), and writes the buffers of the response (HttpResponse.cc).
--
-- - Base: shared names, tests, and the functions of the C++ library that the sources call on strings,
--   maps and numbers. A byte is a number, and a string a list of them; a `char` is signed where the
--   source turns it into an `int`.
-- - Config: config_parser.h and config_parser.cc. Config.Print is `ToString`, Config.Lexer is
--   `ParseToken`, Config.Frames is the stack of pointers in `Parse`, and Config.Parser is `Parse`.
--   Config.Tokens and Config.Printable describe tokens and configurations without the parser,
--   Config.Scanner reads a token piece by piece, Config.Reader is a recursive descent parser of
--   the row of tokens, Config.Judge an automaton over their kinds, and Config.Valid has the rows that
--   are accepted. Config.Interface is the class `NginxConfigParser` with what it promises, which each
--   `main` takes, and Config.Described how a `main` ends by the description of the parser.
-- - Http and RequestParser: the types of request_handler.h, `consume` and `parse`. RequestParser.Grammar
--   describes requests without the states of the parser, RequestParser.Uri the URI of any input, and
--   RequestParser.Interface is the class `request_parser` with what it promises, which a session takes.
-- - MimeTypes, Url and Handlers: mime_types.cc, `url_decode`, and `Init` and `HandleRequest` of the
--   three handlers. Handlers.Interface is the class `RequestHandler` with what it promises, and the three
--   classes that derive from it; a session runs its handlers through it.
-- - Response: `to_buffers` of HttpResponse.cc; each buffer says whose storage it shows, so that a session
--   knows whether `write` may read it. Some storage is always gone, and then the end of the session is
--   undefined, with the buffers kept as they were when they were made.
-- - Server: request.cc. Server.Config is `getPort`, `getChildBlock` and `ConfigToHandlers`,
--   Server.Session is `session`, Server.Main is `main`, and Server.Accept is `server`: a step relation
--   for the loop that accepts connections, the exceptions that end it, and the threads that it detaches.
--   The threads of this relation go on behind an undefined write of one of them. Server.Routes says
--   without maps and buffers which answer a URI gets, Server.Connections what each connection is owed,
--   and Server.EndToEnd puts all of it together.
-- - Older: main.cc, echo_tcp_server.cc and config_parser_main.cc. Older.Reply is reply.cc with the types
--   of handlers.h, Older.FileHandler the class `request_handler` that handlers.h declares and nothing
--   defines, and Older.ParserHeader is request_parser.h, which no file includes.
--
-- A use of the last element of an empty vector, of the top of an empty stack or of a null pointer is
-- undefined behaviour, and a result of its own; so is a write of storage that is
-- gone. Exceptions are `none`, or a result of their own.
--
-- The loop of `Parse` runs on fuel, one more than the length of the stream: each round that is not the
-- last reads a byte. The row of the tokens of a stream is cut off behind as many, and Config.Reader runs
-- on one more than the length of the row. The loop that reads a file in chunks of 512
-- bytes runs on one more than the length of the file. All other loops are recursions on what they read.
--
-- `boost::lexical_cast` of a size and the files of the machine are parameters. What a socket gives to
-- `read_some`, at most 8192 bytes and an error code, is an argument of `session`. Not modelled are what
-- the programs print for debugging, the functions of response.cc, which stand in a comment and would not
-- compile, the tests and the vendored Googletest. Numbers have no bound where the source counts in an
-- `int` or `size_t`; this shows only behind 2 ^ 31 bytes of one quoted token.
mod Base
pub mod Config
pub mod Http
pub mod RequestParser
pub mod MimeTypes
pub mod Url
pub mod Response
pub mod Handlers
pub mod Server
pub mod Older

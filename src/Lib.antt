-- ===== src/Lib.antt =====
-- NetCpp: the message library and the parts around it.
--
-- The program is a C++ network library. Its parts, and the files here that model them:
--
-- src/communicate/message.cpp, src/communicate/option.cpp, include/communicate/message.h: a
-- message, with a head (a session number, a type, a version), options with keys and values, and
-- data. Message.antt; addOption is add_option, getValue is get_value, pushData is push_data,
-- setHead is set_head, the constructor is new_message. Message/Laws.antt shows that the options
-- are a map.
--
-- src/utils/sha256_generator.cpp: the digest in hexadecimal. Sign.antt.
--
-- src/communicate/message_factory.cpp: messages to bytes and back. Factory/Hash.antt is
-- calculate_options_hash, Factory/Encode.antt is encodeMessage with its four parts,
-- Factory/Decode.antt is decodeMessage with its four parts, the four calls for the parser and
-- checkMessageSign. The loop over the option lines takes fuel, which Factory/Fuel.antt shows to be
-- enough. Factory/RoundTrip takes the parts of a message in turn: Head, Options, Section (the
-- lines and their checksum), Wire (all bytes), Whole (encodeMessage).
--
-- src/communicate/message_parser.cpp: a stream of bytes to a queue of messages. Parser.antt has
-- the states and the rounds of the four loops, Parser/Run.antt the loops, parse, getMessage and
-- getMessageCount. The loop of parse has a byte for each call as fuel, which
-- Parser/Stream/Runs.antt shows to be enough. Parser/Stream.antt is about streams that come byte by
-- byte: Rounds, how the rounds of a loop end, and Pieces, how calls of parse fit together.
-- Parser/Frame follows a whole message through the parser.
--
-- src/server.cpp, include/server.h: what goes over UDP. Wire.antt has integers in memory and
-- memcpy. Wire/Packet.antt is Packet2Rawdata and Rawdata2Packet, Wire/Signed.antt is
-- SignedRawdata, CheckRawMsg and ProcessSignedRawMsg, Wire/Box.antt is net_box with CheckNetBox
-- and ProcessNetBox, Wire/Split.antt is the splitting loop of SentRawdata, and Wire/Listener.antt
-- is box_listener, the part of serverDeamon that takes a box, boxProcessorDeamon and CleaningBoxs.
-- Wire/Listener/Filling and Expiry keep invariants of the listeners; Places, Assembly and Delivery
-- follow the boxes of a message to TogtRawData. Wire/Deamon.antt is the loop of serverDeamon, and
-- Wire/Arrival.antt follows the datagrams of a message through it. The loops take fuel: a byte for
-- each round, of which a round takes four at least (Rawdata2Packet) or 256 (SentRawdata).
-- Wire/Request.antt is Request2Packet, Packet2Request, Respond2Packet and Packet2Respond, and
-- Wire/Queues.antt the batches of ProcessRawData and ProcessSendPackets.
--
-- Wire/Post.antt is encrypt_post with Post2Packet, GetPostInfo, Packet2Post, Post2SignedRawData,
-- SignedRawData2Post, and ProcessPacket; Wire/Batch.antt is the loop over a queue that
-- ProcessRawData and ProcessPacket share, and Wire/Post/RoundTrip.antt follows a post to its
-- receiver.
--
-- src/client.cpp, include/server.h: the requests of a client. Client.antt is
-- ProcessRequestListener with its three loops, NewRequest, NewRequestListener, and what
-- clientRespondDeamon does with a datagram; a call of a callback and a message are events.
-- A request whose time is over is freed and then written to, which is undefined: the pass has no
-- result there. Client/Passes.antt says what one pass does, and Client/Silence.antt what passes
-- without answers do.
--
-- src/server.cpp, src/addr.cpp: the square server. Square.antt is its state, with SetPort and
-- SetIP, Square/Handlers.antt the branches of ProcessRequset (register, client_login) and its
-- loop; Square/Logins.antt and Square/Again.antt are about logins and repeated registrations.
--
-- include/cproj.h, src/cproj_cpt.cpp: descriptions of parts. Settings.antt is setting_file, with
-- the operations of std::string that it uses: read_blocks, of which next_setting is a round and
-- after_setting the rest, read_stn, if_name_illegal. Its loops and its recursion take a char of
-- fuel for each round, which Settings/Totality.antt shows to be enough; Settings/Files.antt is
-- read_file and read_settings, with a byte of fuel for each round. Settings/Finding.antt,
-- Text.antt and Rounds.antt lead to the round trip in Settings/RoundTrip.antt. Cpt.antt is Cpt:
-- deal_arg, deal_args, the loop body of deal_content as deal_func, deal_content and the
-- constructor as new_cpt. Cpt/Arguments.antt, Lists.antt and Params.antt write parameters and read
-- them back, Cpt/Functions.antt functions, and Cpt/Descriptions.antt whole descriptions;
-- Cpt/Tables.antt has the maps of a Cpt as lists, and Cpt/Described.antt the tables of a description.
--
-- src/cproj_proj.cpp, include/cproj.h: projects. Project.antt is Proj with deal_order,
-- deal_content, of which deal_block is the loop body, and the constructor from a text;
-- Project/Ordered.antt is std::map with strings as keys. Project/Build.antt is what a project asks
-- of files, the compiler and the linker: the other constructor, GeneralCheckInfo, SearchInfo,
-- CheckCptInfo, BuildFuncIndex, CompileUsedSrcFiles and CheckFuncInfo. Project/Rows.antt has the
-- tables, Project/Tables.antt what DBProcess writes into them, Project/Columns.antt is
-- AttachDatabases with check_database, and Project/Update.antt UpdateProcess, with a function for
-- each of its loops. Project/Wording.antt and Description.antt read a description back;
-- Project/Args.antt, Resync.antt and Sources.antt are about what an update leaves.
--
-- src/controller.cpp, src/addr.cpp, src/model.cpp: what the instructions do. Instruct/Address.antt
-- is checkValidIP with what sscanf and sprintf do there, Instruct/Info.antt has init and set,
-- Instruct/Projects.antt construct and update, Instruct/Callbacks.antt the callbacks of a client's
-- requests and gets_s. Instruct/Dotted.antt and Server.antt are about addresses and `set server`.
--
-- src/main.cpp, include/instruct.h, src/model.cpp: Command.antt is the loop over the arguments of
-- the program, the choice of a function by the instruction, and config_search.
--
-- include/memory.h, include/memory_type.h: the pool of counted blocks. Memory.antt has the
-- operations of BlocksPool, where the count of a block is an int whose overflow is undefined,
-- Memory/Counting.antt an invariant that all of them keep, and
-- Memory/Balance.antt the life of one block.
--
-- src/clock.cpp: Clock.antt is threadsClock with its three loops, newClock and clockThreadFinish,
-- and Clock/Ticks.antt says when a clock starts its thread.
--
-- src/sql.cpp: Sql.antt has the texts of statements and the rows of results, and Sql/Texts.antt
-- reads the lists in a text back.
--
-- src/socket.cpp: Tcp.antt is SocketTCPClient::SendRAW, Tcp/Frames.antt what its frames carry, and
-- Tcp/Marks.antt how they are marked. Tcp/Receive.antt is SocketTCPCServer::RecvRAW_SM,
-- Tcp/Rounds.antt a round of its loop, and Tcp/Passage.antt follows a long message from one to the
-- other.
--
-- The factory encodes a message with the digest of its data as the option "sign", and the parser
-- calls the factory's decoders on the bytes of one part at a time. The server turns a packet into
-- raw data, signs it, and sends it whole or in boxes; the receiver puts the boxes together and
-- undoes each step.
--
-- Base.antt has the names that all files share, Base/Lists.antt and Base/Int.antt lists and
-- integers over the native numbers, Outcome.antt what a call may do besides returning (give up,
-- throw, or run into undefined behaviour), Number.antt the conversions of the C++ library:
-- std::to_string, std::stoi, std::stoul and the narrowing casts. Chars are numbers below 256; a
-- number of w bits wraps where the code lets it.
--
-- Parameters: OpenSSL's SHA-256 is a function from bytes to bytes, as are MD5 and AES-CBC with a
-- key and a vector, the date of a new message is an argument, and BUFSIZ and what malloc and
-- realloc return are arguments. RapidJSON's members of an object, the rows of SQLite, rand64 and
-- inet_addr are the fields of Outside in Square.antt. For projects the files, the compiler and the
-- linker are the fields of Machine in Project/Build.antt, and SQLite with its prepared statements
-- those of Sqlite in Project/Rows.antt, of InfoDb in Instruct/Info.antt and of ClientDb in
-- Instruct/Callbacks.antt; BEGIN and COMMIT around a prepared statement, and what is printed where
-- it fails, are left out.
--
-- Not modelled: the calls of TCP and UDP sockets, threads and locks, the threads that call
-- registered clients, the instructions server and client, the SQLite library, the RSA, AES, SHA-1
-- and random generator code that is copied from other projects, and the data of the tests.
pub mod Base
pub mod Outcome
pub mod Number
pub mod Message
pub mod Sign
pub mod Factory
pub mod Parser
pub mod Wire
pub mod Memory
pub mod Clock
pub mod Sql
pub mod Tcp
pub mod Tests
pub mod Settings
pub mod Cpt
pub mod Client
pub mod Square
pub mod Command
pub mod Project
pub mod Instruct

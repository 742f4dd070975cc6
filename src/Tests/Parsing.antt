-- ===== src/Tests/Parsing.antt =====
-- The parser.
use net_cpp.Base.{Bytes, codes}

abbrev head_line : Bytes
head_line = codes "MSG 0 2 7\r\n"

-- ===== src/Examples/Dates.antt =====
-- The middle of the leap second at the end of 2008.
use hvf.Base.{arith}
use hvf.Clock.Parsed.{Parsed, parse_tod-Parsed}

parse_tod-Parsed_example : Parsed 0xc387_0cb9_0000_0000
parse_tod-Parsed_example = parse_tod-Parsed 0xc387_0cb9_0000_0000 (omega arith)

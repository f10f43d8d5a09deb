-- ===== src/Client/Probe/Request/Whole.antt =====
-- A response with a length is read whole, however the socket splits it.
use seter.Prelude.{List, [], ◌∷◌, Result, ok}
use seter.Prelude.Eq.{nat_eq, list_eq, option_eq}
use seter.Prelude.Text.{Text, text}
use seter.Client.Probe.{Bytes}

abbrev blank : Bytes
blank = text "\r\n\r\n"

-- What the reads give when none of them fails.
abbrev pub delivered : List Bytes → List (Result Text Bytes)
delivered [] = []
delivered (bytes ∷ reads) = ok bytes ∷ delivered reads

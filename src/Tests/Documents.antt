-- ===== src/Tests/Documents.antt =====
-- The theorems on whole calls of the tokenizer and on the parser, at inputs that meet their hypotheses.
use rjsonparser.Prelude.{
  ◌+◌, ◌-◌, ◌≡◌, refl, true, false, List, [], ◌∷◌, Bytes, some, none, take, drop, codes, arith,
  ◌++◌,
}
use rjsonparser.Error.{ok}
use rjsonparser.Handler.{Event}
use rjsonparser.Limits.{default_limits}
use rjsonparser.Keys.{new_table, allocate}
use rjsonparser.Keys.Table.{Stored, put-Stored, new_table-IsTable, lookup-IsTable}
use rjsonparser.Locator.{new_locator}
use rjsonparser.Tokenizer.Delivery.{IsListening, words}
use rjsonparser.Tokenizer.Delivery.Naming.{Named, process_key-Named}
use rjsonparser.Tokenizer.Delivery.Reporting.{names, IsNoting, Itself}
use rjsonparser.Tokenizer.ObjectKeys.{process_key}
use rjsonparser.Tokenizer.Delivery.Chars.{decode_char_at-encode_utf8}
use rjsonparser.Tokenizer.Delivery.Content.{Tells, continue_string-Tells}
use rjsonparser.Tokenizer.Delivery.Runs.{Says, decode_run-Says}
use rjsonparser.Tokenizer.Machine.{new_tokenizer}
use rjsonparser.Tokenizer.Reach.Decoding.{Stops}
use rjsonparser.Tokenizer.Strings.{decode_run, decode_char_at}
use rjsonparser.Text.{encode_utf8, utf8_check}
use rjsonparser.Parser.{
  Parser, Reader, check_bom, receive as receive_bytes, close, bom_fe, feed, process, bom_ef,
}
use rjsonparser.Parser.Marks.{check_bom-append, check_bom-Judged, Judged}
use rjsonparser.Parser.Feeding.{Fed, receive-Fed}
use rjsonparser.Parser.Stream.{
  Stream, begin, arrive, Streamed, CountedTo, Stream-Streamed, Stream-CountedTo,
}
use rjsonparser.Parser.Lifecycle.{Accepted, Refuses, close-Accepted, close-Refuses}
use rjsonparser.Tokenizer.Receive.{receive}
use rjsonparser.Tokenizer.Strings.{scan_plain, continue_string}
use rjsonparser.Tokenizer.Reach.Receiving.{Inside, receive-Inside}
use rjsonparser.Tokenizer.Reach.Scan.{plain_prefix, scan_plain-plain_prefix}
use rjsonparser.Tests.Setup.{start_machine, env_of, recorder, text_float}
use rjsonparser.Tests.Rings.{whole, whole-IsView, list_ring, list_ring-IsRing}

abbrev object : Bytes
object = codes "{\"a\":[1,true]} "

receive-Inside_example :
    Inside (env_of (whole object)) 0 (receive (env_of (whole object)) start_machine)
receive-Inside_example =
    receive-Inside (env_of (whole object)) (whole-IsView object) start_machine (omega arith)

scan_plain-plain_prefix_example :
    scan_plain (whole object) 2 15 ≡ 2 + plain_prefix (take (15 - 2) (drop 2 object))
scan_plain-plain_prefix_example =
    scan_plain-plain_prefix (whole-IsView object) 2 15 (omega arith) (omega arith)

check_bom-append_example :
    check_bom (whole (0xFE ∷ 0xFF ∷ codes "x")) ≡ check_bom (whole (0xFE ∷ 0xFF ∷ []))
unfolding check_bom bom_fe
check_bom-append_example =
    check_bom-append (codes "x") (whole-IsView (0xFE ∷ 0xFF ∷ []))
      (whole-IsView (0xFE ∷ 0xFF ∷ codes "x")) (λ h. ground (arith, h))

check_bom-Judged_example :
    Judged (0xEF ∷ 0xBB ∷ 0xBF ∷ codes "1") (check_bom (whole (0xEF ∷ 0xBB ∷ 0xBF ∷ codes "1")))
check_bom-Judged_example =
    check_bom-Judged (0xEF ∷ 0xBB ∷ 0xBF ∷ codes "1")
      (whole-IsView (0xEF ∷ 0xBB ∷ 0xBF ∷ codes "1"))

-- A parser before its first byte, which takes documents of up to 100 bytes.
abbrev fresh : Parser (List (Event Bytes))
fresh = record {
  handler = [];
  key_symbol_table = new_table;
  limits = record default_limits { max_document_length = some 100 };
  locator = new_locator;
  reject_duplicate_keys = false;
  checked_bom = false;
  closed = false;
  document_length = 0;
  unconsumed = 0;
  buffer_size = 16;
  string_chunk_size = 32;
  underflow = false;
  tokenizer = none;
}

receive-Fed_example :
    Fed text_float recorder list_ring list_ring-IsRing true
      (object, 1)
      (receive_bytes text_float recorder list_ring fresh (object, 1))
receive-Fed_example =
    receive-Fed text_float recorder list_ring list_ring-IsRing fresh (object, 1) (omega arith)
      (omega arith, refl)

-- The first byte of a mark, of which nothing can be used yet.
mark_arrives :
    Stream text_float recorder list_ring list_ring-IsRing fresh
      ([], 16)
      (0xEF ∷ [])
      (record fresh { document_length = 1; unconsumed = 1; underflow = true })
      (0xEF ∷ [], 15)
unfolding receive_bytes feed process check_bom bom_ef
mark_arrives = arrive begin (0xEF ∷ []) (omega arith) refl

Stream-Streamed_example :
    Streamed text_float recorder list_ring list_ring-IsRing fresh
      ([], 16)
      (0xEF ∷ [])
      (record fresh { document_length = 1; unconsumed = 1; underflow = true })
      (0xEF ∷ [], 15)
Stream-Streamed_example =
    Stream-Streamed text_float recorder list_ring list_ring-IsRing (omega arith) refl refl
      mark_arrives

Stream-CountedTo_example :
    CountedTo text_float recorder list_ring list_ring-IsRing 100 fresh
      (0xEF ∷ [])
      (record fresh { document_length = 1; unconsumed = 1; underflow = true })
Stream-CountedTo_example =
    Stream-CountedTo text_float recorder list_ring list_ring-IsRing 100 refl (omega arith) refl refl
      mark_arrives

close-Accepted_example :
    Accepted text_float recorder list_ring (close text_float recorder list_ring fresh (object, 1))
close-Accepted_example = close-Accepted text_float recorder list_ring fresh (object, 1) refl

close-Refuses_example :
    Refuses text_float recorder list_ring
      (close text_float recorder list_ring fresh (object, 1)).1.0
      (codes "2", 15)
close-Refuses_example =
    close-Refuses text_float recorder list_ring fresh (object, 1) (codes "2", 15)

-- A source that is the list of its bytes.
abbrev list_reader : Reader Bytes
list_reader = record { read = λ r n. (ok (take n r), drop n r) }

-- A key that stands for itself.
put-Stored_example : Stored Itself new_table (codes "name") 7 (codes "name")
unfolding new_table allocate
put-Stored_example =
    put-Stored Itself new_table (codes "name") 7 (codes "name") (new_table-IsTable Itself)
      (omega arith) refl

-- The table with one key, and what looking it up gives.
one_key : Stored Itself new_table (codes "name") 7 (codes "name")
unfolding new_table allocate
one_key =
    put-Stored Itself new_table (codes "name") 7 (codes "name") (new_table-IsTable Itself)
      (omega arith) refl

lookup-IsTable_example : Itself (codes "name") one_key.1.1.1.1.0
lookup-IsTable_example =
    lookup-IsTable Itself one_key.0 (codes "name") one_key.1.1.1.1.0 7 one_key.1.1.0
      one_key.1.1.1.1.1.0

abbrev told : List (Event Bytes) → Bytes
told [] = []
told (e ∷ earlier) = told earlier ++ words e

recorder-IsListening : IsListening recorder told
recorder-IsListening = record { hears = λ e l h accepted. refl }

abbrev content : Bytes
content = codes "h\\u0041\\n\" "

continue_string-Tells_example :
    Tells
      (env_of (whole content))
      told
      recorder-IsListening
      (whole-IsView content)
      []
      0
      (continue_string (env_of (whole content)) start_machine)
unfolding new_tokenizer
continue_string-Tells_example =
    continue_string-Tells (env_of (whole content)) told recorder-IsListening (whole-IsView content)
      start_machine (omega arith) refl

plain-Stops : Stops (whole content) 1
plain-Stops _ = refl

decode_run-Says_example :
    Says told content [] 0 (decode_run (some recorder) (whole content) 0 1 start_machine)
unfolding new_tokenizer
decode_run-Says_example =
    decode_run-Says recorder told recorder-IsListening (whole-IsView content) 0 1 start_machine
      plain-Stops (omega arith) (omega arith)

abbrev accented : Bytes
accented = 0x61 ∷ 0xC3 ∷ 0xA9 ∷ b'"' ∷ []

decode_char_at-encode_utf8_example : encode_utf8 0xE9 ≡ take 2 (drop 1 accented)
unfolding decode_char_at utf8_check
decode_char_at-encode_utf8_example =
    decode_char_at-encode_utf8 (whole-IsView accented) 1 0xE9 2 (omega arith) refl

abbrev noted_keys : List (Event Bytes) → List Bytes
noted_keys [] = []
noted_keys (e ∷ earlier) = names e ++ noted_keys earlier

recorder-IsNoting : IsNoting recorder noted_keys
recorder-IsNoting = record { notes = λ e l h accepted. refl }

abbrev member : Bytes
member = codes "\"ab\":1"

process_key-Named_example :
    Named
      (env_of (whole member))
      noted_keys
      recorder-IsNoting
      (whole-IsView member)
      start_machine
      (process_key (env_of (whole member)) start_machine)
process_key-Named_example =
    process_key-Named (env_of (whole member)) noted_keys recorder-IsNoting (whole-IsView member)
      start_machine (omega arith) (new_table-IsTable Itself)

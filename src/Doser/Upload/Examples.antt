-- ===== src/Doser/Upload/Examples.antt =====
-- The theorems on the upload at a small body.
use mathlib.Core.List.{append_assoc, append-nil}
use aqua_one.Base.{
  ℕ, ◌≡◌, refl, Bool, true, false, ◌&&◌, leb, ltb, if◌then◌else◌, List, [], ◌∷◌, ◌++◌, none, some,
  length, arith, word,
}
use aqua_one.Doser.Upload.Size.{
  parse_firmware_size, parse_firmware_size_lem, is_decimal, value_from,
}
use aqua_one.Doser.Upload.Header.{
  codes, parse_content_type, break_at, same_token, skip, copy_boundary, is_boundary_char,
}
use aqua_one.Doser.Upload.Part.{parse_headers}
use aqua_one.Doser.Upload.Feed.{
  Event, start, bytes, end, begin, Parser, feed, feed_loop, opening_byte, header_byte, payload,
  opening,
}
use aqua_one.Doser.Upload.Feed.Emit.{accepted, IsStreaming, ◌>>=◌}
use aqua_one.Doser.Upload.Feed.Chunks.{feed-append}
use aqua_one.Doser.Upload.Feed.Bounds.{IsReading, begin-IsReading, feed-IsReading}
use aqua_one.Doser.Upload.Feed.Delivery.{feed_delivers, rest_of_body}

parse_firmware_size_lem_example : parse_firmware_size (codes "4294967296") ≡ (
    if leb 1 (length (codes "4294967296"))
      && leb (length (codes "4294967296")) 10
      && is_decimal (codes "4294967296")
      && leb 1 (value_from 0 (codes "4294967296"))
      && ltb (value_from 0 (codes "4294967296")) word
    then some (value_from 0 (codes "4294967296"))
    else none)
parse_firmware_size_lem_example = parse_firmware_size_lem (codes "4294967296")

-- A sink that keeps the bytes.
abbrev collect : List ℕ → Event → List ℕ × Bool
collect s start = (s, true)
collect s (bytes l) = (s ++ l, true)
collect s end = (s, true)

-- What a page would send before the file.
abbrev head : List ℕ
head = codes "--ab\r\nContent-Disposition: form-data; name=\"firmware\"; filename=\"a.bin\"\r\n\r\n"

abbrev parser : Parser
parser = record {
  opening_text = codes "--ab\r\n";
  closing_text = codes "\r\n--ab--";
  next_part = codes "\r\n--ab\r\n";
  position = 0;
  header_bytes = [];
  carry = [];
  close_tail = 0;
  end_emitted = false;
  file_name = [];
  phase = opening;
}

abbrev in_file : Parser
in_file = record parser {
  phase = payload;
  file_name = codes "a.bin";
  header_bytes =
      codes "Content-Disposition: form-data; name=\"firmware\"; filename=\"a.bin\"\r\n\r\n";
}

begin_ab : begin (codes "ab") ≡ some parser
unfolding begin
begin_ab = refl

parse_content_type_ab :
    parse_content_type (codes "Multipart/form-data; boundary=\"ab\"") ≡ some (codes "ab")
unfolding parse_content_type break_at same_token skip copy_boundary is_boundary_char
parse_content_type_ab = refl

head_accepted : accepted (feed collect parser [] head) ≡ some (in_file, [])
unfolding feed feed_loop opening_byte header_byte parse_headers same_token break_at skip
head_accepted = refl

collect-IsStreaming : IsStreaming collect
collect-IsStreaming s [] ys = refl
collect-IsStreaming s (x ∷ xs) [] = rw (append-nil xs) refl
collect-IsStreaming s (x ∷ xs) (y ∷ ys) = rw (append_assoc s (x ∷ xs) (y ∷ ys)) refl

abbrev file : List ℕ
file = codes "x\r\n--y"

feed_delivers_example :
    rest_of_body collect collect-IsStreaming
      (head ++ (file ++ (codes "\r\n--ab--" ++ codes "\r\n")))
      (parser, [])
    ≡ some file
feed_delivers_example =
    feed_delivers collect collect-IsStreaming (codes "ab") head file (codes "\r\n") parser []
      in_file [] begin_ab head_accepted refl refl refl refl

feed-append_example : accepted (feed collect in_file [] (codes "x\r\n" ++ codes "--ab--")) ≡ (
    accepted (feed collect in_file [] (codes "x\r\n")) >>= λ (q, t).
    accepted (feed collect q t (codes "--ab--")))
feed-append_example =
    feed-append collect collect-IsStreaming in_file [] (codes "x\r\n") (codes "--ab--")
      (record { same = refl; some_bytes = omega arith; fits = omega arith })

head_taken : (feed collect parser [] head).2 ≡ true
unfolding feed feed_loop opening_byte header_byte parse_headers same_token break_at skip
head_taken = refl

feed-IsReading_example : IsReading (codes "ab") (feed collect parser [] head).0
feed-IsReading_example =
    feed-IsReading collect (codes "ab") parser [] head (begin-IsReading (codes "ab") begin_ab)
      head_taken

-- ===== src/Core/Web/Control.antt =====
-- The control frames of aquaOneCore/src/Web/WebSocketControlFrames.h. A payload is the list of its bytes.
mod Utf8
pub mod Text
use aqua_one.Base.{
  ℕ, zero, suc, ◌+◌, ◌-◌, ◌*◌, Bool, true, false, not, ◌&&◌, ◌||◌, ◌==◌, ltb, leb, if◌then◌else◌,
  List, [], ◌∷◌, length, Option, none, some,
}

-- A byte that opens a character: how many follow, and the range of the first of them.
pub record Lead : Type 0 where
  pub trailing : ℕ
  pub first_min : ℕ
  pub first_max : ℕ

unfoldable pub lead_of : ℕ → Option Lead
lead_of lead =
    if leb 194 lead && leb lead 223
    then some (record { trailing = 1; first_min = 128; first_max = 191 })
    else if leb 224 lead && leb lead 239
    then some (record {
      trailing = 2;
      first_min = (if lead == 224 then 160 else 128);
      first_max = (if lead == 237 then 159 else 191);
    })
    else if leb 240 lead && leb lead 244
    then some (record {
      trailing = 3;
      first_min = (if lead == 240 then 144 else 128);
      first_max = (if lead == 244 then 143 else 191);
    })
    else none

-- The bytes behind the first one that follows.
unfoldable pub others : ℕ → List ℕ → Option (List ℕ)
others zero text = some text
others (suc n) [] = none
others (suc n) (b ∷ text) = if ltb b 128 || ltb 191 b then none else others n text

unfoldable pub following : Lead → List ℕ → Option (List ℕ)
following l [] = none
following l (b ∷ text) =
    if ltb (length (b ∷ text)) l.trailing || ltb b l.first_min || ltb l.first_max b
    then none
    else others (l.trailing - 1) text

unfoldable pub follow : Option Lead → List ℕ → Option (List ℕ)
follow none text = none
follow (some l) text = following l text

-- A turn of the loop of validCloseReason: the text behind a character.
unfoldable pub character : ℕ → List ℕ → Option (List ℕ)
character lead text = if ltb lead 128 then some text else follow (lead_of lead) text

unfoldable pub go_on : (List ℕ → Bool) → Option (List ℕ) → Bool
go_on loop none = false
go_on loop (some text) = loop text

-- Every turn takes a byte, so the length is enough fuel.
unfoldable pub reason_loop : ℕ → List ℕ → Bool
reason_loop fuel [] = true
reason_loop zero (lead ∷ text) = false
reason_loop (suc fuel) (lead ∷ text) = go_on (reason_loop fuel) (character lead text)

-- validCloseReason(...)
unfoldable pub valid_close_reason : List ℕ → Bool
valid_close_reason text = reason_loop (length text) text

unfoldable pub valid_code : ℕ → Bool
valid_code code =
    (leb 1000 code
      && leb code 1014
      && not (code == 1004)
      && not (code == 1005)
      && not (code == 1006))
    || (leb 3000 code && leb code 4999)

-- validClosePayload(...)
unfoldable pub valid_close_payload : List ℕ → Bool
valid_close_payload [] = true
valid_close_payload (a ∷ []) = false
valid_close_payload (a ∷ b ∷ text) = valid_code (a * 256 + b) && valid_close_reason text

pub data ControlResult : Type 0 where
  handled : ControlResult
  unsupported : ControlResult
  malformed : ControlResult
  send_failed : ControlResult

abbrev pub ws_close : ℕ
ws_close = 8

abbrev pub ws_ping : ℕ
ws_ping = 9

abbrev pub ws_pong : ℕ
ws_pong = 10

unfoldable pub is_control : ℕ → Bool
is_control opcode = opcode == ws_close || opcode == ws_ping || opcode == ws_pong

-- handleWebSocketControl(...): the frames it sends, and the result. `sends` is the answer of send, false
-- where it is null.
unfoldable pub handle_control : Bool → ℕ → Bool → List ℕ → List (ℕ × List ℕ) × ControlResult
handle_control sends opcode final payload =
    if not (is_control opcode)
    then ([], unsupported)
    else if not final
        || ltb 125 (length payload)
        || (opcode == ws_close && not (valid_close_payload payload))
    then ([], malformed)
    else if opcode == ws_pong
    then ([], handled)
    else (
      (if opcode == ws_ping then ws_pong else ws_close, payload) ∷ [],
      if sends then handled else send_failed,
    )

-- ===== src/WinHttp/Send/Chunked.antt =====
-- src/winhttp.rs: what a streamed body puts on the wire, against the grammar of chunked transfer encoding.
use mathlib.Core.List.{append_assoc}
use mathlib.Core.Path.{subst}
use wrest.Error.{Error, Source}
use wrest.Prelude.Result.{Result, ok, err}
use wrest.Prelude.Text.{Text, codes, within}
use wrest.Prelude.{
  ℕ, zero, suc, ◌+◌, ◌-◌, ◌*◌, ◌/◌, ◌%◌, ◌<◌, Bool, true, false, List, [], ◌∷◌, ◌++◌, Option, none,
  some, if◌then◌else◌, ◌==◌, length, is_empty_list, ◌≡◌, refl, sym, ◌∙◌, ap, arith, Bool-cases, inl,
  inr,
}
use wrest.Url.Types.{Url}
use wrest.WinHttp.Send.{
  hex_digit, hex_onto, lower_hex, crlf, chunk_frame, terminator, write_stream, send_stream,
}
use wrest.WinHttp.Transport.{Winhttp, went_on-eq-ok, context_of-state, at_url, ◌>>◌}

-- The value of a hexadecimal digit, of either case.
abbrev pub digit_value : ℕ → Option ℕ
digit_value c =
    if within 48 57 c
    then some (c - 48)
    else if within 97 102 c
    then some (c - 87)
    else if within 65 70 c
    then some (c - 55)
    else none

-- The number that some digits write, after a number that was read.
unfoldable pub read_hex : ℕ → Text → Option ℕ
read_hex before [] = some before
read_hex before (c ∷ s) = elim (digit_value c) [
  | none ↦ none
  | some d ↦ read_hex (before * 16 + d) s
]

-- The grammar of a chunked body without extensions and trailers, with the bytes that it carries.
pub data ChunkedBody : List ℕ → List ℕ → Type 0 where
  last_chunk : {wire : List ℕ} → wire ≡ codes "0" ++ (crlf ++ crlf) → ChunkedBody wire []
  chunk :
      {wire rest body : List ℕ} (digits content : List ℕ) {size : ℕ}
      → read_hex 0 digits ≡ some (suc size)
      → length content ≡ suc size
      → ChunkedBody rest body
      → wire ≡ (digits ++ crlf) ++ ((content ++ crlf) ++ rest)
      → ChunkedBody wire (content ++ body)

read_hex_digit :
    (before d : ℕ) (s : Text)
    → d < 16
    → read_hex before (hex_digit d ∷ s) ≡ read_hex (before * 16 + d) s
unfolding read_hex
read_hex_digit before d s small =
    let e : digit_value (hex_digit d) ≡ some d = ground arith in rw (e, read_hex) refl

read_hex-hex_onto :
    (fuel n : ℕ) (s : Text) → n < fuel → read_hex 0 (hex_onto fuel n s) ≡ read_hex n s
unfolding hex_onto
read_hex-hex_onto zero n s small = absurd (omega arith)
read_hex-hex_onto (suc fuel) n s small =
    let last = read_hex_digit 0 (n % 16) s (omega arith) in
    let before = read_hex_digit (n / 16) (n % 16) s (omega arith) in
    let shifted : n / 16 * 16 + n % 16 ≡ n = omega arith in
    let ih = read_hex-hex_onto fuel (n / 16) (hex_digit (n % 16) ∷ s) in
    elim (Bool-cases (n / 16 == 0)) [
      | inl e ↦
          let small_n : 0 * 16 + n % 16 ≡ n = ground arith in
          rw e (last ∙ ap (λ (m : ℕ). read_hex m s) small_n)
      | inr e ↦ rw e (ih (ground arith) ∙ before ∙ ap (λ (m : ℕ). read_hex m s) shifted)
    ]

read_hex-lower_hex : (n : ℕ) → read_hex 0 (lower_hex n) ≡ some n
unfolding lower_hex read_hex
read_hex-lower_hex n = read_hex-hex_onto (n + 1) n [] (omega arith)

-- The bytes of the items of a stream.
abbrev pub items_bytes : List (Result Source (List ℕ)) → List ℕ
items_bytes [] = []
items_bytes (ok found ∷ items) = found ++ items_bytes items
items_bytes (err e ∷ items) = items_bytes items

frame-ChunkedBody :
    (content rest body : List ℕ)
    → is_empty_list content ≡ false
    → ChunkedBody rest body
    → ChunkedBody (chunk_frame content ++ rest) (content ++ body)
unfolding chunk_frame
frame-ChunkedBody [] rest body some_bytes follows = cc
frame-ChunkedBody (b ∷ content) rest body some_bytes follows =
    chunk (lower_hex (suc (length content))) (b ∷ content)
      (read_hex-lower_hex (suc (length content))) refl follows
      (append_assoc (lower_hex (suc (length content)) ++ crlf) ((b ∷ content) ++ crlf) rest)

abbrev pub all_ok : List (Result Source (List ℕ)) → Bool
all_ok [] = true
all_ok (ok found ∷ items) = all_ok items
all_ok (err e ∷ items) = false

-- `wire` is what was written of the body, to which a write that succeeds adds its buffer.
module _ {W : Type 0} (abi : Winhttp W) (wire : W → List ℕ)
    (writes : (found : List ℕ) (w : W)
      → (abi.write_data found w).1 ≡ ok tt
      → wire (abi.write_data found w).0 ≡ wire w ++ found)
    (url : Url) where
  -- What a run has put on the wire.
  abbrev pub Wrote : W → W → List ℕ → Type 0
  Wrote w w' body = (written : List ℕ) × (wire w' ≡ wire w ++ written) × ChunkedBody written body

  one_more :
      (w w' w'' : W) (found body : List ℕ)
      → is_empty_list found ≡ false
      → wire w' ≡ wire w ++ chunk_frame found
      → Wrote w' w'' body
      → Wrote w w'' (found ++ body)
  one_more w w' w'' found body some_bytes first (written, then_wrote, is) = (
    chunk_frame found ++ written,
    then_wrote
        ∙ ap (λ (t : List ℕ). t ++ written) first
        ∙ append_assoc (wire w) (chunk_frame found) written,
    frame-ChunkedBody found written body some_bytes is,
  )

  starts_at : (v w w' : W) (body : List ℕ) → wire w ≡ wire v → Wrote w w' body → Wrote v w' body
  starts_at v w w' body same (written, wrote, is) =
      (written, wrote ∙ ap (λ (t : List ℕ). t ++ written) same, is)

  write_stream-Wrote :
      (items : List (Result Source (List ℕ))) (w : W)
      → (write_stream abi url items w).1 ≡ ok tt
      → Wrote w (write_stream abi url items w).0 (items_bytes items)
  unfolding write_stream
  write_stream-Wrote [] w went =
      (codes "0" ++ (crlf ++ crlf), writes terminator w went, last_chunk refl)
  write_stream-Wrote (err e ∷ items) w went = cc
  write_stream-Wrote (ok [] ∷ items) w went = write_stream-Wrote items w went
  write_stream-Wrote (ok (b ∷ found) ∷ items) w went =
      let framed = chunk_frame (b ∷ found) in
      let (_, first, same) =
        went_on-eq-ok (λ _. write_stream abi url items) (abi.write_data framed w) went in
      let then_ok : (write_stream abi url items (abi.write_data framed w).0).1 ≡ ok tt =
        ap (λ (r : W × Result Error (Unit {0})). r.1) (sym same) ∙ went in
      subst (λ (r : W × Result Error (Unit {0})). Wrote w r.0 ((b ∷ found) ++ items_bytes items))
        (sym same)
        (one_more w (abi.write_data framed w).0
          (write_stream abi url items (abi.write_data framed w).0).0 (b ∷ found) (items_bytes items)
          refl (writes framed w first)
          (write_stream-Wrote items (abi.write_data framed w).0 then_ok))

  write_stream-ok :
      (items : List (Result Source (List ℕ))) (w : W)
      → (write_stream abi url items w).1 ≡ ok tt
      → all_ok items ≡ true
  unfolding write_stream
  write_stream-ok [] w went = refl
  write_stream-ok (err e ∷ items) w went = cc
  write_stream-ok (ok [] ∷ items) w went = write_stream-ok items w went
  write_stream-ok (ok (b ∷ found) ∷ items) w went =
      let framed = chunk_frame (b ∷ found) in
      let (_, first, same) =
        went_on-eq-ok (λ _. write_stream abi url items) (abi.write_data framed w) went in
      write_stream-ok items (abi.write_data framed w).0
        (ap (λ (r : W × Result Error (Unit {0})). r.1) (sym same) ∙ went)

  -- Adding a header and sending the head of the request write nothing of the body.
  module _ (heads : (line : Text) (w : W) → wire (abi.add_request_header line w).0 ≡ wire w)
      (sends : (w : W) → wire (abi.send_request [] 0 w).0 ≡ wire w) where
    -- When a streamed body has been sent, no item of the stream was an error, and what was written is a
    -- chunked body by its grammar that carries the bytes of all items, in order; items without bytes write
    -- nothing, so that none of them ends the body early.
    pub send_stream-Wrote :
        (items : List (Result Source (List ℕ))) (w : W)
        → (send_stream abi url items w).1 ≡ ok tt
        → (all_ok items ≡ true) × Wrote w (send_stream abi url items w).0 (items_bytes items)
    unfolding send_stream
    send_stream-Wrote items w went =
        let line = codes "Transfer-Encoding: chunked" ++ crlf in
        let head = at_url url (abi.add_request_header line) w in
        let sending = abi.send_request [] 0 >> write_stream abi url items in
        let (_, _, same) = went_on-eq-ok (λ _. sending) head went in
        let went_on_sending : (sending head.0).1 ≡ ok tt =
          ap (λ (r : W × Result Error (Unit {0})). r.1) (sym same) ∙ went in
        let sent = abi.send_request [] 0 head.0 in
        let (_, _, same') = went_on-eq-ok (λ _. write_stream abi url items) sent went_on_sending in
        let wrote : (write_stream abi url items sent.0).1 ≡ ok tt =
          ap (λ (r : W × Result Error (Unit {0})). r.1) (sym same') ∙ went_on_sending in
        let untouched : wire sent.0 ≡ wire w =
          sends head.0
          ∙ ap wire (context_of-state url (abi.add_request_header line w))
          ∙ heads line w in
        (
          write_stream-ok items sent.0 wrote,
          subst (λ (r : W × Result Error (Unit {0})). Wrote w r.0 (items_bytes items))
              (sym (same ∙ same'))
              (starts_at w sent.0 (write_stream abi url items sent.0).0 (items_bytes items)
                untouched (write_stream-Wrote items sent.0 wrote)),
        )

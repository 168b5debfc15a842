-- ===== src/WinHttp/Send/Pieces.antt =====
-- src/winhttp.rs: the body that is too large for one call, and that `write_data` therefore gets in pieces.
use mathlib.Core.List.{append-nil, append_assoc}
use native.Mathlib.Decide.{dec_lt}
use wrest.Error.{Error}
use wrest.Prelude.Result.{Result, ok}
use wrest.Prelude.Text.{Text, codes, decimal}
use wrest.Prelude.{
  ℕ, zero, suc, ◌+◌, ◌-◌, ◌<◌, ◌≤◌, true, false, List, [], ◌∷◌, ◌++◌, ltb, length, take, drop, min,
  ◌≡◌, refl, sym, ◌∙◌, ap, arith, take-append-drop, length-take, length-drop,
}
use wrest.Url.Types.{Url}
use wrest.WinHttp.Send.{crlf, write_pieces, send_large, large_body_chunk_max}
use wrest.WinHttp.Transport.{Winhttp, went_on-eq-ok, context_of-state, at_url, ◌>>◌}

module _ {A : Type 0} where
  drop_all : (n : ℕ) (xs : List A) → length xs ≤ n → drop n xs ≡ []
  drop_all zero [] h = refl
  drop_all zero (x ∷ xs) h = absurd (omega arith)
  drop_all (suc n) [] h = refl
  drop_all (suc n) (x ∷ xs) h = drop_all n xs (omega arith)

  drop-add : (n m : ℕ) (xs : List A) → drop (n + m) xs ≡ drop m (drop n xs)
  drop-add zero m xs = let e : 0 + m ≡ m = omega arith in ap (λ (k : ℕ). drop k xs) e
  drop-add (suc n) m [] = drop_all (suc n + m) [] (omega arith) ∙ sym (drop_all m [] (omega arith))
  drop-add (suc n) m (x ∷ xs) =
      (let e : suc n + m ≡ suc (n + m) = omega arith in ap (λ (k : ℕ). drop k (x ∷ xs)) e)
      ∙ drop-add n m xs

-- `wire` is what was written of the body. A write of some bytes that fit a `DWORD`, when it succeeds, adds
-- its buffer; of any other write nothing is known.
module _ {W : Type 0} (abi : Winhttp W) (wire : W → List ℕ) (chunk_max : ℕ)
    (writes : (found : List ℕ) (w : W)
      → 0 < length found
      → length found ≤ chunk_max
      → (abi.write_data found w).1 ≡ ok tt
      → wire (abi.write_data found w).0 ≡ wire w ++ found)
    (url : Url) where
  -- The piece at an offset.
  abbrev piece : List ℕ → ℕ → List ℕ
  piece body offset = take (min (length body - offset) chunk_max) (drop offset body)

  piece_length :
      (body : List ℕ) (offset : ℕ)
      → 0 < chunk_max
      → offset < length body
      → (0 < length (piece body offset)) × (length (piece body offset) ≤ chunk_max)
  piece_length body offset some_room inside =
      let taken = length-take (min (length body - offset) chunk_max) (drop offset body) in
      let left = length-drop offset body in (omega arith, omega arith)

  pieces_step :
      (fuel : ℕ) (body : List ℕ) (offset : ℕ) (w : W)
      → offset < length body
      → write_pieces abi url (suc fuel) chunk_max body offset w
        ≡ (abi.write_data (piece body offset)
              >> write_pieces abi url fuel chunk_max body
                  (offset + min (length body - offset) chunk_max))
            w
  unfolding write_pieces
  pieces_step fuel body offset w inside =
      let e : ltb offset (length body) ≡ true = ground arith in rw (e, write_pieces) refl

  pieces_end :
      (fuel : ℕ) (body : List ℕ) (offset : ℕ) (w : W)
      → length body ≤ offset
      → write_pieces abi url fuel chunk_max body offset w ≡ (w, ok tt)
  unfolding write_pieces
  pieces_end zero body offset w past = refl
  pieces_end (suc fuel) body offset w past =
      let e : ltb offset (length body) ≡ false = ground arith in rw (e, write_pieces) refl

  past_end :
      (fuel : ℕ) (body : List ℕ) (offset : ℕ) (w : W)
      → length body ≤ offset
      → wire (write_pieces abi url fuel chunk_max body offset w).0 ≡ wire w ++ drop offset body
  past_end fuel body offset w past =
      ap (λ (r : W × Result Error (Unit {0})). wire r.0) (pieces_end fuel body offset w past)
      ∙ sym (append-nil (wire w))
      ∙ ap (λ (t : List ℕ). wire w ++ t) (sym (drop_all offset body past))

  write_pieces-writes :
      (fuel : ℕ) (body : List ℕ) (offset : ℕ) (w : W)
      → 0 < chunk_max
      → length body - offset ≤ fuel
      → (write_pieces abi url fuel chunk_max body offset w).1 ≡ ok tt
      → wire (write_pieces abi url fuel chunk_max body offset w).0 ≡ wire w ++ drop offset body
  write_pieces-writes zero body offset w some_room enough went =
      past_end zero body offset w (omega arith)
  write_pieces-writes (suc fuel) body offset w some_room enough went =
      elim (dec_lt offset (length body)) [
        | no past ↦ past_end (suc fuel) body offset w (omega arith)
        | yes inside ↦
            let size = min (length body - offset) chunk_max in
            let next = write_pieces abi url fuel chunk_max body (offset + size) in
            let this = abi.write_data (piece body offset) w in
            let step = pieces_step fuel body offset w inside in
            let went' = ap (λ (r : W × Result Error (Unit {0})). r.1) (sym step) ∙ went in
            let (_, first, same) = went_on-eq-ok (λ _. next) this went' in
            let then_ok = ap (λ (r : W × Result Error (Unit {0})). r.1) (sym same) ∙ went' in
            let (some_bytes, fits) = piece_length body offset some_room inside in
            ap (λ (r : W × Result Error (Unit {0})). wire r.0) (step ∙ same)
            ∙ write_pieces-writes fuel body (offset + size) this.0 some_room (omega arith) then_ok
            ∙ ap (λ (t : List ℕ). t ++ drop (offset + size) body)
                (writes (piece body offset) w some_bytes fits first)
            ∙ append_assoc (wire w) (piece body offset) (drop (offset + size) body)
            ∙ ap (λ (t : List ℕ). wire w ++ (piece body offset ++ t)) (drop-add offset size body)
            ∙ ap (λ (t : List ℕ). wire w ++ t) (take-append-drop size (drop offset body))
      ]

-- When a body that is too large for one call has been sent, exactly its bytes were written, in order and
-- each once, though nothing is known of a write of no bytes or of more bytes than a `DWORD` can count. Adding
-- a header and sending the head of the request write nothing of the body.
pub send_large-writes :
    {W : Type 0} (abi : Winhttp W) (wire : W → List ℕ)
    → ((found : List ℕ) (w : W)
        → 0 < length found
        → length found ≤ large_body_chunk_max
        → (abi.write_data found w).1 ≡ ok tt
        → wire (abi.write_data found w).0 ≡ wire w ++ found)
    → ((line : Text) (w : W) → wire (abi.add_request_header line w).0 ≡ wire w)
    → ((w : W) → wire (abi.send_request [] 0 w).0 ≡ wire w)
    → (url : Url) (body : List ℕ) (w : W) → (send_large abi url body w).1 ≡ ok tt
    → wire (send_large abi url body w).0 ≡ wire w ++ body
unfolding send_large
send_large-writes {W} abi wire writes heads sends url body w went =
    let line = codes "Content-Length: " ++ (decimal (length body) ++ crlf) in
    let head = at_url url (abi.add_request_header line) w in
    let pieces = write_pieces abi url (length body) large_body_chunk_max body 0 in
    let sending = abi.send_request [] 0 >> pieces in
    let (_, _, same) = went_on-eq-ok (λ _. sending) head went in
    let went' = ap (λ (r : W × Result Error (Unit {0})). r.1) (sym same) ∙ went in
    let sent = abi.send_request [] 0 head.0 in
    let (_, _, same') = went_on-eq-ok (λ _. pieces) sent went' in
    let wrote = ap (λ (r : W × Result Error (Unit {0})). r.1) (sym same') ∙ went' in
    ap (λ (r : W × Result Error (Unit {0})). wire r.0) (same ∙ same')
    ∙ write_pieces-writes abi wire large_body_chunk_max writes url (length body) body 0 sent.0
        (omega arith) (omega arith) wrote
    ∙ ap (λ (t : List ℕ). t ++ body)
        (sends head.0
          ∙ ap wire (context_of-state url (abi.add_request_header line w))
          ∙ heads line w)

-- ===== src/WinHttp/Replay/Once.antt =====
-- src/winhttp.rs: how often a request is sent, and that the wait for its response ends.
use wrest.Body.{Body, BodyInner, bytes, stream}
use wrest.Error.{Error, Source}
use wrest.Prelude.Result.{Result, ok, err, Result-cases}
use wrest.Prelude.Text.{Text, codes, text_eq}
use wrest.Prelude.{
  ℕ, zero, suc, ◌+◌, ◌≤◌, Bool, true, ◌&&◌, not, List, [], ◌∷◌, Option, none, some, if◌then◌else◌,
  leb, length, is_some, is_none, ◌≡◌, refl, ap, arith, Bool-cases, inl, inr, ltb, min, take, drop,
  ◌-◌,
}
use wrest.Url.Parse.{UriLib}
use wrest.Url.Types.{Url}
use wrest.WinHttp.Replay.{
  CertlessRedirectRetry, on_error, or_replay, send_body, receive_loop, receive_fuel, transmit,
  new_retry,
}
use wrest.WinHttp.Send.{
  send_stream, send_large, send_inline, write_stream, write_pieces, chunk_frame,
  large_body_chunk_max, terminator, large_body_threshold,
}
use wrest.WinHttp.Transport.{Op, Winhttp, went_on, ◌>>◌, at_url, context_of-state, context_of}

module _ {W : Type 0} (uri : UriLib) (abi : Winhttp W) (url : Url) where
  no_second_replay :
      (r : CertlessRedirectRetry) (e : Error) (w : W)
      → r.attempted ≡ true
      → on_error uri abi url r e w ≡ (r, (w, err e))
  unfolding on_error
  no_second_replay r e w tried = ground arith

  replayed-attempted :
      (r : CertlessRedirectRetry) (e : Error) (w : W)
      → (on_error uri abi url r e w).1.1 ≡ ok tt
      → (on_error uri abi url r e w).0.attempted ≡ true
  unfolding on_error
  replayed-attempted r e w went = ground arith

  ends_after_replay :
      (fuel : ℕ) (r : CertlessRedirectRetry) (w : W)
      → r.attempted ≡ true
      → is_some (receive_loop uri abi url (suc fuel) r w).1.1 ≡ true
  unfolding receive_loop
  ends_after_replay fuel r w tried = elim (Result-cases (abi.receive_response w).1) [
    | inl (_, e) ↦ rw (e, receive_loop) refl
    | inr (failed, e) ↦
        rw (e, receive_loop) (rw (no_second_replay r failed (abi.receive_response w).0 tried) refl)
  ]

  ends_in_round :
      (fuel : ℕ) (r : CertlessRedirectRetry) (w : W)
      → is_some (receive_loop uri abi url (suc (suc fuel)) r w).1.1 ≡ true
  unfolding receive_loop
  ends_in_round fuel r w = elim (Result-cases (abi.receive_response w).1) [
    | inl (_, e) ↦ rw (e, receive_loop) refl
    | inr (failed, e) ↦
        let tried = on_error uri abi url r failed (abi.receive_response w).0 in
        elim (Result-cases tried.1.1) [
          | inr (_, f) ↦ rw (e, receive_loop) (rw f refl)
          | inl (_, f) ↦
              rw (e, receive_loop)
                (rw f (
                  ends_after_replay fuel tried.0 tried.1.0
                    (replayed-attempted r failed (abi.receive_response w).0 f)))
        ]
  ]

  -- The wait for the response ends after at most two rounds: after the replay no error is replayed again.
  -- So a request that was sent has a result.
  pub transmit-ends :
      (r : CertlessRedirectRetry) (body : Option Body) (w : W)
      → is_some (transmit uri abi url r body w).1 ≡ true
  unfolding transmit
  transmit-ends r body w =
      let sent = send_body uri abi url r body w in
      elim (Result-cases sent.1.1) [
        | inl (_, e) ↦ rw (e, transmit) (ends_in_round 0 sent.0 sent.1.0)
        | inr (_, e) ↦ rw (e, transmit) refl
      ]

-- `heads` counts the calls of `WinHttpSendRequest`, which alone put a request on the wire.
module _ {W : Type 0} (uri : UriLib) (abi : Winhttp W) (url : Url) (heads : W → ℕ)
    (sends : (found : List ℕ) (n : ℕ) (w : W)
      → heads (abi.send_request found n w).0 ≡ suc (heads w))
    (adds : (line : Text) (w : W) → heads (abi.add_request_header line w).0 ≡ heads w)
    (writes : (found : List ℕ) (w : W) → heads (abi.write_data found w).0 ≡ heads w)
    (sets : (w : W) → heads (abi.set_no_client_cert w).0 ≡ heads w)
    (receives : (w : W) → heads (abi.receive_response w).0 ≡ heads w) where
  went_on-heads :
      (next : Unit {0} → Op W (Unit {0})) (r : W × Result Error (Unit {0})) (k n : ℕ)
      → heads r.0 ≤ k
      → ((w : W) → heads (next tt w).0 ≤ heads w + n)
      → heads (went_on next r).0 ≤ k + n
  went_on-heads next (w, ok _) k n first after = let h = after w in omega arith
  went_on-heads next (w, err e) k n first after = omega arith

  at_url-heads :
      (r : W × Result Error (Unit {0})) (w : W)
      → heads r.0 ≡ heads w
      → heads (context_of url r).0 ≤ heads w
  at_url-heads r w same = let e = ap heads (context_of-state url r) in omega arith

  write_stream-heads :
      (items : List (Result Source (List ℕ))) (w : W)
      → heads (write_stream abi url items w).0 ≤ heads w + 0
  unfolding write_stream
  write_stream-heads [] w = let e = writes terminator w in omega arith
  write_stream-heads (err e ∷ items) w = omega arith
  write_stream-heads (ok [] ∷ items) w = write_stream-heads items w
  write_stream-heads (ok (b ∷ found) ∷ items) w =
      let e = writes (chunk_frame (b ∷ found)) w in
      let total =
        went_on-heads (λ _. write_stream abi url items) (abi.write_data (chunk_frame (b ∷ found)) w)
          (heads w) 0 (omega arith) (write_stream-heads items) in
      omega arith

  write_pieces-heads :
      (fuel chunk_max : ℕ) (body : List ℕ) (offset : ℕ) (w : W)
      → heads (write_pieces abi url fuel chunk_max body offset w).0 ≤ heads w + 0
  unfolding write_pieces
  write_pieces-heads zero chunk_max body offset w = omega arith
  write_pieces-heads (suc fuel) chunk_max body offset w =
      let size = min (length body - offset) chunk_max in
      let piece = take size (drop offset body) in
      let e = writes piece w in
      let total =
        went_on-heads (λ _. write_pieces abi url fuel chunk_max body (offset + size))
          (abi.write_data piece w) (heads w) 0 (omega arith)
          (write_pieces-heads fuel chunk_max body (offset + size)) in
      elim (Bool-cases (ltb offset (length body))) [
        | inl inside ↦ rw inside total
        | inr past ↦ rw past (omega arith)
      ]

  -- The head of the request with its header line, before what follows.
  head_then :
      (line : Text) (rest : Op W (Unit {0})) (w : W)
      → ((v : W) → heads (rest v).0 ≤ heads v + 0)
      → heads ((at_url url (abi.add_request_header line) >> (abi.send_request [] 0 >> rest)) w).0
        ≤ heads w + 1
  head_then line rest w after =
      went_on-heads (λ _. abi.send_request [] 0 >> rest)
        (context_of url (abi.add_request_header line w)) (heads w) 1
        (at_url-heads _ w (adds line w))
        (λ (v : W).
          let e = sends [] 0 v in
          let h =
            went_on-heads (λ _. rest) (abi.send_request [] 0 v) (heads v + 1) 0 (omega arith)
              after in
          omega arith)

  send_stream-heads :
      (items : List (Result Source (List ℕ))) (w : W)
      → heads (send_stream abi url items w).0 ≤ heads w + 1
  unfolding send_stream
  send_stream-heads items w = head_then _ (write_stream abi url items) w (write_stream-heads items)

  send_large-heads : (body : List ℕ) (w : W) → heads (send_large abi url body w).0 ≤ heads w + 1
  unfolding send_large
  send_large-heads body w =
      head_then _ (write_pieces abi url (length body) large_body_chunk_max body 0) w
        (write_pieces-heads (length body) large_body_chunk_max body 0)

  -- The replays that are left.
  abbrev pub room : CertlessRedirectRetry → ℕ
  room r = if r.replay_safe && not r.attempted then 1 else 0

  replay-heads :
      (w : W)
      → heads ((at_url url abi.set_no_client_cert >> abi.send_request [] 0) w).0 ≤ heads w + 1
  replay-heads w =
      went_on-heads (λ _. abi.send_request [] 0) (context_of url (abi.set_no_client_cert w))
        (heads w) 1 (at_url-heads _ w (sets w)) (λ (v : W). let e = sends [] 0 v in omega arith)

  on_error-heads :
      (r : CertlessRedirectRetry) (e : Error) (w : W)
      → let t = on_error uri abi url r e w in heads t.1.0 + room t.0 ≤ heads w + room r
  unfolding on_error
  on_error-heads r e w = let h = replay-heads w in ground arith

  or_replay-heads :
      (r : CertlessRedirectRetry) (tried : W × Result Error (Unit {0}))
      → let t = or_replay uri abi url r tried in heads t.1.0 + room t.0 ≤ heads tried.0 + room r
  unfolding or_replay
  or_replay-heads r (w, ok _) = omega arith
  or_replay-heads r (w, err e) = on_error-heads r e w

  send_inline-heads :
      (r : CertlessRedirectRetry) (body : List ℕ) (w : W)
      → let t = or_replay uri abi url r (send_inline abi body w) in
        heads t.1.0 + room t.0 ≤ heads w + 1 + room r
  unfolding send_inline
  send_inline-heads r body w =
      let e = sends body (length body) w in
      let h = or_replay-heads r (abi.send_request body (length body) w) in omega arith

  send_body-heads :
      (r : CertlessRedirectRetry) (body : Option Body) (w : W)
      → let t = send_body uri abi url r body w in heads t.1.0 + room t.0 ≤ heads w + 1 + room r
  unfolding send_body
  send_body-heads r none w = send_inline-heads r [] w
  send_body-heads r (some body) w = by_inner r body.inner w
    where
      by_inner :
          (r : CertlessRedirectRetry) (inner : BodyInner) (w : W)
          → let t = send_body uri abi url r (some (record { inner = inner })) w in
            heads t.1.0 + room t.0 ≤ heads w + 1 + room r
      by_inner r (stream items) w = let h = send_stream-heads items w in omega arith
      by_inner r (bytes v) w =
          let small = send_inline-heads r v w in
          let large = send_large-heads v w in
          elim (Bool-cases (leb (length v) large_body_threshold)) [
            | inl e ↦ rw e small
            | inr e ↦ rw e (omega arith)
          ]

  receive_loop-heads :
      (fuel : ℕ) (r : CertlessRedirectRetry) (w : W)
      → heads (receive_loop uri abi url fuel r w).1.0 ≤ heads w + room r
  unfolding receive_loop
  receive_loop-heads zero r w = omega arith
  receive_loop-heads (suc fuel) r w =
      let e = receives w in
      let received = abi.receive_response w in
      elim (Result-cases received.1) [
        | inl (_, f) ↦ rw (f, receive_loop) (omega arith)
        | inr (failed, f) ↦
            let tried = on_error uri abi url r failed received.0 in
            let kept = on_error-heads r failed received.0 in
            let again = receive_loop-heads fuel tried.0 tried.1.0 in
            elim (Result-cases tried.1.1) [
              | inl (_, g) ↦ rw (f, receive_loop) (rw g (omega arith))
              | inr (_, g) ↦ rw (f, receive_loop) (rw g (omega arith))
            ]
      ]

  -- However the send and the wait for the response fail, a request is sent once, and a second time only
  -- where it may be replayed.
  transmit-heads :
      (r : CertlessRedirectRetry) (body : Option Body) (w : W)
      → heads (transmit uri abi url r body w).0 ≤ heads w + 1 + room r
  unfolding transmit
  transmit-heads r body w =
      let sent = send_body uri abi url r body w in
      let h = send_body-heads r body w in
      let loop = receive_loop-heads receive_fuel sent.0 sent.1.0 in
      elim (Result-cases sent.1.1) [
        | inl (_, e) ↦ rw (e, transmit) (omega arith)
        | inr (_, e) ↦ rw (e, transmit) (omega arith)
      ]

  -- A request whose URL is https, whose method is not GET, or that has a body is sent at most once, whatever
  -- of its sending fails; any other request is sent at most twice.
  pub transmit-once :
      (initial : Url) (method : Text) (body : Option Body) (w : W)
      → let again : Bool = not initial.is_https && text_eq method (codes "GET") && is_none body in
        heads (transmit uri abi url (new_retry initial method body) body w).0
        ≤ heads w + 1 + (if again then 1 else 0)
  unfolding new_retry
  transmit-once initial method body w =
      let h = transmit-heads (new_retry initial method body) body w in ground arith

-- ===== src/Client/Http2/Laws.antt =====
-- What `_send_h2c_body` of pyhypervec/pyhypervec/client.py sends, and what `_request_h2c` takes for a
-- response.
use hyper_vector.Common.{
  ℕ, zero, suc, ◌+◌, ◌-◌, ◌<◌, ◌≤◌, ◌≡◌, refl, sym, subst, ap, ◌∙◌, append_assoc, true, false,
  Option, none, some, List, [], ◌∷◌, ◌++◌, ◌==◌, length, take, All, Bool-cases, inl, inr, arith,
}
use hyper_vector.Client.Http2.{
  Connection, IsConnection, Outcome, sent, closed, chunk_size, send_from, send_h2c_body, drop,
  after_chunk, Event, stream_ended, Received, receive_events, receive_response, read_response,
}

-- The body that chunks make up.
abbrev pub joined : {C : Type 0} → List (C × List ℕ) → List ℕ
joined [] = []
joined ((c, x) ∷ xs) = x ++ joined xs

take-drop : (n : ℕ) (xs : List ℕ) → take n xs ++ drop n xs ≡ xs
take-drop zero xs = refl
take-drop (suc n) [] = refl
take-drop (suc n) (x ∷ xs) = ap (◌∷◌ x) (take-drop n xs)

length-drop : (n : ℕ) (xs : List ℕ) → length (drop n xs) ≡ length xs - n
length-drop zero xs = omega arith
length-drop (suc n) [] = omega arith
length-drop (suc n) (x ∷ xs) = omega (arith, length-drop n xs)

length-take : (n : ℕ) (xs : List ℕ) → n ≤ length xs → length (take n xs) ≡ n
length-take zero xs h = refl
length-take (suc n) [] h = absurd (omega arith)
length-take (suc n) (x ∷ xs) h = omega (arith, length-take n xs)

module _ {C : Type 0} (h : Connection C) where
  -- A chunk that is not empty, and within the window and the frame size of the connection that sent it.
  abbrev pub Fits : C × List ℕ → Type 0
  Fits (c, chunk) =
      (0 < length chunk)
      × (length chunk ≤ h.local_flow_control_window c)
      × (length chunk ≤ h.max_outbound_frame_size c)

  -- A body that went out is what its chunks make up. If the connection was closed, they make up a part of it,
  -- and something is left over.
  abbrev pub Sends : List ℕ → Option (Outcome C) → Type 0
  Sends body none = ⊥
  Sends body (some (sent chunks c inbox)) = (joined chunks ≡ body) × All Fits chunks
  Sends body (some (closed chunks)) =
      ((rest : List ℕ) × (joined chunks ++ rest ≡ body) × (0 < length rest)) × All Fits chunks

  after_chunk-Sends :
      (c : C) (chunk rest : List ℕ)
      → Fits (c, chunk)
      → (o : Option (Outcome C)) → Sends rest o
      → Sends (chunk ++ rest) (after_chunk (c, chunk) o)
  after_chunk-Sends c chunk rest fits none s = elim s [ ]
  after_chunk-Sends c chunk rest fits (some (sent chunks d inbox)) (whole, all) =
      (ap (λ x. chunk ++ x) whole, (fits, all))
  after_chunk-Sends c chunk rest fits (some (closed chunks)) ((left, part, pos), all) = (
    (left, append_assoc chunk (joined chunks) left ∙ ap (λ x. chunk ++ x) part, pos),
    (fits, all),
  )

  module _ (law : IsConnection h) where
    chunk_size-Fits :
        (c : C) (body : List ℕ)
        → (h.local_flow_control_window c == 0) ≡ false
        → 0 < length body
        → Fits (c, take (chunk_size h c (length body)) body) × (0 < chunk_size h c (length body))
    unfolding chunk_size
    chunk_size-Fits c body window pos =
        ground (
          arith,
          law.max_outbound_frame_size-pos c,
          length-take (chunk_size h c (length body)) body,
        )

    -- A round with an open window.
    send_from-chunk :
        (fuel : ℕ) (b : ℕ) (rest : List ℕ) (inbox : List (List ℕ)) (c : C)
        → (h.local_flow_control_window c == 0) ≡ false
        → let n = chunk_size h c (length (b ∷ rest)) in
          send_from h (suc fuel) (b ∷ rest) inbox c
          ≡ after_chunk
              (c, take n (b ∷ rest))
              (send_from h fuel (drop n (b ∷ rest)) inbox (h.send_data c (take n (b ∷ rest))))
    unfolding send_from
    send_from-chunk fuel b rest inbox c window = rw (window, send_from) refl

    -- A round with a shut one.
    send_from-wait :
        (fuel : ℕ) (b : ℕ) (rest : List ℕ) (x : ℕ) (xs : List ℕ) (later : List (List ℕ)) (c : C)
        → (h.local_flow_control_window c == 0) ≡ true
        → send_from h (suc fuel) (b ∷ rest) ((x ∷ xs) ∷ later) c
          ≡ send_from h fuel (b ∷ rest) later (h.receive_data c (x ∷ xs))
    unfolding send_from
    send_from-wait fuel b rest x xs later c window = rw (window, send_from) refl

    send_from-closed :
        (fuel : ℕ) (b : ℕ) (rest : List ℕ) (c : C)
        → (h.local_flow_control_window c == 0) ≡ true
        → (send_from h (suc fuel) (b ∷ rest) [] c ≡ some (closed []))
          × ((later : List (List ℕ))
              → send_from h (suc fuel) (b ∷ rest) ([] ∷ later) c ≡ some (closed []))
    unfolding send_from
    send_from-closed fuel b rest c window =
        (rw (window, send_from) refl, λ later. rw (window, send_from) refl)

    nothing_sent : (b : ℕ) (rest : List ℕ) → Sends (b ∷ rest) (some (closed []))
    nothing_sent b rest = ((b ∷ rest, refl, omega arith), tt)

    chunk-Sends :
        (fuel : ℕ) (b : ℕ) (rest : List ℕ) (inbox : List (List ℕ)) (c : C)
        → (h.local_flow_control_window c == 0) ≡ false
        → let n = chunk_size h c (length (b ∷ rest)) in
          (length (drop n (b ∷ rest)) < length (b ∷ rest)
            → Sends
                (drop n (b ∷ rest))
                (send_from h fuel (drop n (b ∷ rest)) inbox (h.send_data c (take n (b ∷ rest)))))
          → Sends (b ∷ rest) (send_from h (suc fuel) (b ∷ rest) inbox c)
    chunk-Sends fuel b rest inbox c window later =
        let n = chunk_size h c (length (b ∷ rest)) in
        let (fits, pos) = chunk_size-Fits c (b ∷ rest) window (omega arith) in
        subst (λ o. Sends (b ∷ rest) o) (sym (send_from-chunk fuel b rest inbox c window))
          (subst
            (λ body. Sends body (
              after_chunk (c, take n (b ∷ rest))
                (send_from h fuel (drop n (b ∷ rest)) inbox (h.send_data c (take n (b ∷ rest))))))
            (take-drop n (b ∷ rest))
            (after_chunk-Sends c (take n (b ∷ rest)) (drop n (b ∷ rest)) fits _
              (later (omega (arith, length-drop n (b ∷ rest), pos)))))

    send_from-Sends :
        (fuel : ℕ) (body : List ℕ) (inbox : List (List ℕ)) (c : C)
        → length body + length inbox < fuel
        → Sends body (send_from h fuel body inbox c)
    send_from-Sends zero body inbox c enough = elim enough [ ]
    send_from-Sends (suc fuel) [] inbox c enough = unfold send_from in (refl, tt)
    send_from-Sends (suc fuel) (b ∷ rest) [] c enough =
        elim (Bool-cases (h.local_flow_control_window c == 0)) [
          | inl shut ↦
              subst (λ o. Sends (b ∷ rest) o) (sym (send_from-closed fuel b rest c shut).0)
                (nothing_sent b rest)
          | inr window ↦
              chunk-Sends fuel b rest [] c window
                (λ less. send_from-Sends fuel _ [] _ (omega arith))
        ]
    send_from-Sends (suc fuel) (b ∷ rest) ([] ∷ later) c enough =
        elim (Bool-cases (h.local_flow_control_window c == 0)) [
          | inl shut ↦
              subst (λ o. Sends (b ∷ rest) o) (sym ((send_from-closed fuel b rest c shut).1 later))
                (nothing_sent b rest)
          | inr window ↦
              chunk-Sends fuel b rest ([] ∷ later) c window
                (λ less. send_from-Sends fuel _ ([] ∷ later) _ (omega arith))
        ]
    send_from-Sends (suc fuel) (b ∷ rest) ((x ∷ xs) ∷ later) c enough =
        elim (Bool-cases (h.local_flow_control_window c == 0)) [
          | inl shut ↦
              subst (λ o. Sends (b ∷ rest) o) (sym (send_from-wait fuel b rest x xs later c shut))
                (send_from-Sends fuel (b ∷ rest) later _ (omega arith))
          | inr window ↦
              chunk-Sends fuel b rest ((x ∷ xs) ∷ later) c window
                (λ less. send_from-Sends fuel _ ((x ∷ xs) ∷ later) _ (omega arith))
        ]

    -- `_send_h2c_body` ends. If it returns, the chunks that it sent make up the body, in order; if it raises
    -- because the connection was closed, they make up a part of it. No chunk is empty or larger than the
    -- window or the frame size at the time it was sent.
    pub send_h2c_body-Sends :
        (body : List ℕ) (inbox : List (List ℕ)) (c : C) → Sends body (send_h2c_body h body inbox c)
    unfolding send_h2c_body
    send_h2c_body-Sends body inbox c =
        send_from-Sends (suc (length body + length inbox)) body inbox c (omega arith)

received-cut_off :
    (batches : List (List Event)) (r : Received)
    → let whole = receive_response (batches ++ (stream_ended ∷ []) ∷ []) r in
      (whole.status ≡ (receive_response batches r).status)
      × (whole.body ≡ (receive_response batches r).body)
unfolding receive_response receive_events
received-cut_off [] r = ground arith
received-cut_off (events ∷ later) r =
    ground (arith, received-cut_off later (receive_events events r))

-- A response that is cut off, because the connection was closed before the end of the stream, is taken for
-- a whole one: whatever was received, the end of the stream makes no difference.
pub read_response-cut_off :
    (batches : List (List Event))
    → read_response batches ≡ read_response (batches ++ (stream_ended ∷ []) ∷ [])
unfolding read_response
read_response-cut_off batches =
    let (same_status, same_body) =
      received-cut_off batches (record { status = none; body = []; ended = false }) in
    rw (same_status, same_body) refl

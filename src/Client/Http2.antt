-- ===== src/Client/Http2.antt =====
-- HTTP/2 over cleartext in `HypervecClient` (pyhypervec/pyhypervec/client.py): `_send_h2c_body` and the
-- reading of the response in `_request_h2c`. The connection of the package h2 is a parameter.
pub mod Laws
use hyper_vector.Common.{
  ℕ, zero, suc, ◌+◌, ◌-◌, ◌<◌, ◌≤◌, ◌≡◌, String, Bool, true, false, Option, none, some, List, [],
  ◌∷◌, ◌++◌, ◌==◌, leb, length, take, min, if◌then◌else◌,
}

-- `H2Connection` and the stream of one request. A window that is not positive is 0.
pub record Connection (C : Type 0) : Type 0 where
  pub local_flow_control_window : C → ℕ
  pub max_outbound_frame_size : C → ℕ
  pub send_data : C → List ℕ → C
  pub end_stream : C → C
  pub receive_data : C → List ℕ → C

-- RFC 9113 wants a maximal frame size of at least 2^14.
pub record IsConnection {C : Type 0} (h : Connection C) : Type 0 where
  pub max_outbound_frame_size-pos : (c : C) → 0 < h.max_outbound_frame_size c

abbrev pub drop : {A : Type 0} → ℕ → List A → List A
drop zero xs = xs
drop (suc n) [] = []
drop (suc n) (x ∷ xs) = drop n xs

-- `sent` has the chunks that were sent, each with the connection as it was before, the connection after
-- the end of the stream and what is still to be received; `closed` is the HypervecClientError.
pub data Outcome (C : Type 0) : Type 0 where
  sent : List (C × List ℕ) → C → List (List ℕ) → Outcome C
  closed : List (C × List ℕ) → Outcome C

abbrev pub after_chunk : {C : Type 0} → C × List ℕ → Option (Outcome C) → Option (Outcome C)
after_chunk chunk none = none
after_chunk chunk (some (sent chunks c inbox)) = some (sent (chunk ∷ chunks) c inbox)
after_chunk chunk (some (closed chunks)) = some (closed (chunk ∷ chunks))

module _ {C : Type 0} (h : Connection C) where
  open h use {
    local_flow_control_window, max_outbound_frame_size, send_data, end_stream, receive_data,
  }

  -- chunk_size
  unfoldable pub chunk_size : C → ℕ → ℕ
  chunk_size c remaining =
      min (local_flow_control_window c) (min (max_outbound_frame_size c) remaining)

  -- The loop, on fuel. `rest` is `body[offset:]`, and `inbox` is what each `recv` will give; when it is
  -- used up the peer has closed the connection.
  unfoldable pub send_from : ℕ → List ℕ → List (List ℕ) → C → Option (Outcome C)
  unfolding chunk_size
  send_from zero rest inbox c = none
  send_from (suc fuel) [] inbox c = some (sent [] (end_stream c) inbox)
  send_from (suc fuel) (b ∷ rest) inbox c = elim (local_flow_control_window c == 0) [
    | true ↦ elim inbox [
      | [] ↦ some (closed [])
      | received ∷ later ↦ elim received [
        | [] ↦ some (closed [])
        | x ∷ xs ↦ send_from fuel (b ∷ rest) later (receive_data c (x ∷ xs))
      ]
    ]
    | false ↦
        let n = chunk_size c (length (b ∷ rest)) in
        after_chunk (c, take n (b ∷ rest))
          (send_from fuel (drop n (b ∷ rest)) inbox (send_data c (take n (b ∷ rest))))
  ]

  -- Each round sends a byte at least, or receives.
  unfoldable pub send_h2c_body : List ℕ → List (List ℕ) → C → Option (Outcome C)
  unfolding send_from
  send_h2c_body body inbox c = send_from (suc (length body + length inbox)) body inbox c

-- The events of h2 that the client looks at; an event has a chunk of the body, or the status among its
-- headers.
pub data Event : Type 0 where
  response_received : Option ℕ → Event
  data_received : List ℕ → Event
  stream_ended other_event : Event

pub record Received : Type 0 where
  pub status : Option ℕ
  pub body : List ℕ
  pub ended : Bool

abbrev or_else : Option ℕ → Option ℕ → Option ℕ
or_else none old = old
or_else (some n) old = some n

-- for event in events
unfoldable pub receive_events : List Event → Received → Received
receive_events [] r = r
receive_events (response_received status ∷ events) r =
    receive_events events (record r { status = or_else status r.status })
receive_events (data_received chunk ∷ events) r =
    receive_events events (record r { body = r.body ++ chunk })
receive_events (stream_ended ∷ events) r = receive_events events (record r { ended = true })
receive_events (other_event ∷ events) r = receive_events events r

-- while not stream_ended: each item has the events of one `recv`; when there are no more, the peer has
-- closed the connection.
unfoldable pub receive_response : List (List Event) → Received → Received
unfolding receive_events
receive_response [] r = r
receive_response (events ∷ later) r =
    let next = receive_response later (receive_events events r) in if r.ended then r else next

-- What `_request_h2c` makes of the response: the body, or an exception with the status.
pub data Reading : Type 0 where
  body_of : List ℕ → Reading
  http_error : ℕ → Reading
  no_status : Reading

abbrev status_or_zero : Option ℕ → ℕ
status_or_zero none = 0
status_or_zero (some n) = n

unfoldable pub read_response : List (List Event) → Reading
unfolding receive_response
read_response batches =
    let r = receive_response batches (record { status = none; body = []; ended = false }) in
    if leb 400 (status_or_zero r.status)
    then http_error (status_or_zero r.status)
    else if status_or_zero r.status == 0
    then no_status
    else body_of r.body

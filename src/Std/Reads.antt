-- ===== src/Std/Reads.antt =====
-- handlers/memcached/std: what a batch of Get answers, over a server that holds items.
use rend.Prelude.{
  ℕ, ◌^◌, ◌<◌, ◌≡◌, refl, ap, ◌∙◌, Bool, false, List, [], ◌∷◌, ◌++◌, length, length-append, Option,
  none, some, Bytes, arith,
}
use rend.Common.{key_not_found, is_key_not_found, GetResponse}
use rend.Binprot.Wire.{
  Result, ok, err, put_uint32, length-put_uint32, read_uint32-put, read_full, read_full-append,
}
use rend.Binprot.Parser.{sub32}
use rend.Binprot.Commands.{write_get_cmd}
use rend.Binprot.Headers.{ResponseHeader}
use rend.Binprot.Status.{decode_error}
use rend.Orcas.{Event, received}
use rend.Orcas.Caches.{Item}
use rend.Conn.{
  Conn, Peer, C, ◌>>=◌, return, reading, expect_success, read_number, number_or_zero, clean,
}
use rend.Conn.Answers.{
  IsFrame, framed, answered, sending, bind-ok, bind-err, flush-then, expect_success-ok,
  expect_success-error,
}
use rend.Std.{Local, hit, miss, get_local, key_events, real_handle_get}

-- The headers of the answers to a get: of a hit, which has the flags and no key, and of a miss.
pub record IsHit (h : ResponseHeader) (value : Bytes) (flags : ℕ) : Type 0 where
  pub is_frame : IsFrame h (put_uint32 flags ++ value)
  pub is_success : decode_error h ≡ none
  pub no_key : h.key_length ≡ 0
  pub has_flags : h.extra_length ≡ 4
  pub flags_fit : flags < 2 ^ 32

pub record IsMiss (h : ResponseHeader) (body : Bytes) : Type 0 where
  pub is_frame : IsFrame h body
  pub is_not_found : decode_error h ≡ some key_not_found

-- A server that holds items answers a get command with the one that it holds or with a miss, and
-- goes on to hold what it held.
pub record ServesGets {S : Type 0} (peer : Peer S) : Type 1 where
  pub view : S → Bytes → Option Item
  pub keeps : (k j : Bytes) (s : S) → view (peer (write_get_cmd k 0) s).1 j ≡ view s j
  pub hits :
      (k value : Bytes) (flags : ℕ) (s : S)
      → view s k ≡ some (value, flags)
      → (h : ResponseHeader) × ((peer (write_get_cmd k 0) s).0
          ≡ framed h (put_uint32 flags ++ value) [])
        × IsHit h value flags
  pub misses :
      (k : Bytes) (s : S)
      → view s k ≡ none
      → (h : ResponseHeader) × (body : Bytes) × ((peer (write_get_cmd k 0) s).0 ≡ framed h body [])
        × IsMiss h body

-- The responses to the keys of a batch.
abbrev pub response : Option Item → Bytes → ℕ → Bool → GetResponse
response (some (value, flags)) k o q =
    hit k o q (record { value = value; flags = flags; exptime = 0 })
response none k o q = miss k o q

abbrev pub responses :
    (Bytes → Option Item) → List Bytes → List ℕ → List Bool → List (Event GetResponse)
responses view (k ∷ keys) (o ∷ opaques) (q ∷ quiets) =
    received (response (view k) k o q) ∷ responses view keys opaques quiets
responses view _ _ _ = []

module _ {S : Type 0} (peer : Peer S) where
  -- The reading of flags and data behind a header.
  abbrev read_body : ResponseHeader → C S Local
  read_body h = do
    server_flags ← read_number
    server_exp ← return 0
    buf ← reading (read_full (sub32 (sub32 h.total_body_length h.key_length) h.extra_length))
    return (record { value = buf; flags = server_flags; exptime = server_exp })

  value_length :
      (h : ResponseHeader) (value : Bytes) (flags : ℕ)
      → IsHit h value flags
      → length value ≡ sub32 (sub32 h.total_body_length h.key_length) h.extra_length
  value_length h value flags v = ground (
    arith,
    v.is_frame.body_ok,
    v.is_frame.header_ok.total_fits,
    v.no_key,
    v.has_flags,
    length-append (put_uint32 flags) value,
    length-put_uint32 flags,
  )

  read_number-put :
      (n : ℕ) (rest : Bytes) (s : S)
      → n < 2 ^ 32
      → read_number (answered (put_uint32 n ++ rest) s) ≡ (ok n, answered rest s)
  read_number-put n rest s h =
      ap (λ r. (ok (number_or_zero r.0), answered r.1 s)) (read_uint32-put n rest h)

  reading_value :
      (value : Bytes) (n : ℕ) (s : S)
      → length value ≡ n
      → reading (read_full n) (answered (value ++ []) s) ≡ (ok value, clean s)
  reading_value value n s e = ap (λ r. (r.0, answered r.1 s)) (read_full-append value [] n e)

  read_body-hit :
      (h : ResponseHeader) (value : Bytes) (flags : ℕ) (s : S)
      → IsHit h value flags
      → read_body h (answered ((put_uint32 flags ++ value) ++ []) s)
        ≡ (ok (record { value = value; flags = flags; exptime = 0 }), clean s)
  unfolding put_uint32
  read_body-hit h value flags s v =
      let len = sub32 (sub32 h.total_body_length h.key_length) h.extra_length in
      bind-ok read_number
        (λ n. do
          server_exp ← return 0
          buf ← reading (read_full len)
          return (record { value = buf; flags = n; exptime = server_exp }))
        (answered ((put_uint32 flags ++ value) ++ []) s) (answered (value ++ []) s) flags
        (read_number-put flags (value ++ []) s v.flags_fit)
      ∙ bind-ok (reading (read_full len))
          (λ buf. return (record { value = buf; flags = flags; exptime = 0 }))
          (answered (value ++ []) s) (clean s) value
          (reading_value value len s (value_length h value flags v))

  -- A get command in the buffer, and its answer read.
  get_local-hit :
      (bs value : Bytes) (flags : ℕ) (h : ResponseHeader) (s s' : S)
      → peer bs s ≡ (framed h (put_uint32 flags ++ value) [], s')
      → IsHit h value flags
      → get_local peer false (sending bs s)
        ≡ (ok (record { value = value; flags = flags; exptime = 0 }), clean s')
  unfolding get_local
  get_local-hit bs value flags h s s' e v =
      flush-then peer (do got ← expect_success; read_body got) bs _ s s' e
      ∙ bind-ok expect_success read_body _ _ h (
          expect_success-ok h ((put_uint32 flags ++ value) ++ []) s' v.is_frame.header_ok
            v.is_success)
      ∙ read_body-hit h value flags s' v

  get_local-miss :
      (bs body : Bytes) (h : ResponseHeader) (s s' : S)
      → peer bs s ≡ (framed h body [], s')
      → IsMiss h body
      → get_local peer false (sending bs s) ≡ (err key_not_found, clean s')
  unfolding get_local
  get_local-miss bs body h s s' e v =
      flush-then peer (do got ← expect_success; read_body got) bs _ s s' e
      ∙ bind-err expect_success read_body _ _ key_not_found
          (expect_success-error h body [] s' key_not_found v.is_frame v.is_not_found)

  abbrev local_of : Option Item → Result Local
  local_of (some (value, flags)) = ok (record { value = value; flags = flags; exptime = 0 })
  local_of none = err key_not_found

  module _ (server : ServesGets peer) where
    -- The state behind a get command.
    abbrev next : Bytes → S → S
    next k s = (peer (write_get_cmd k 0) s).1

    get_key :
        (k : Bytes) (s : S) (x : Option Item)
        → server.view s k ≡ x
        → get_local peer false (sending (write_get_cmd k 0) s) ≡ (local_of x, clean (next k s))
    get_key k s (some (value, flags)) e =
        let (h, p, v) = server.hits k value flags s e in
        get_local-hit (write_get_cmd k 0) value flags h s (next k s) (ap (λ b. (b, next k s)) p) v
    get_key k s none e =
        let (h, body, p, v) = server.misses k s e in
        get_local-miss (write_get_cmd k 0) body h s (next k s) (ap (λ b. (b, next k s)) p) v

    key_events-response :
        (k : Bytes) (o : ℕ) (q : Bool) (x : Option Item) (c : Conn S)
        (rest : Conn S → List (Event GetResponse) × Conn S)
        → key_events peer (hit k o q) (miss k o q) (local_of x, c) rest
          ≡ (received (response x k o q) ∷ (rest c).0, (rest c).1)
    unfolding is_key_not_found
    key_events-response k o q (some (value, flags)) c rest = refl
    key_events-response k o q none c rest = refl

    -- Over a server that holds items: Get sends, in order, one response for each key, with the data and
    -- flags that the server holds for it or a miss, as far as there are opaques and quiet flags; it
    -- reads the answers whole, and the server goes on to hold what it held.
    pub get-responses :
        (keys : List Bytes) (opaques : List ℕ) (quiets : List Bool) (s : S)
        → (s' : S) × (real_handle_get peer keys opaques quiets (clean s)
            ≡ (responses (server.view s) keys opaques quiets, clean s'))
          × (server.view s' ≡ server.view s)
    unfolding real_handle_get
    get-responses [] os qs s = (s, refl, refl)
    get-responses (k ∷ keys) [] qs s = (s, refl, refl)
    get-responses (k ∷ keys) (o ∷ os) [] s = (s, refl, refl)
    get-responses (k ∷ keys) (o ∷ os) (q ∷ qs) s =
        let same : server.view (next k s) ≡ server.view s = λ i j. server.keeps k j s i in
        let (s', e, same') = get-responses keys os qs (next k s) in
        (
          s',
          ap (λ r. key_events peer (hit k o q) (miss k o q) r (real_handle_get peer keys os qs))
                (get_key k s (server.view s k) refl)
              ∙ key_events-response k o q (server.view s k) (clean (next k s)) _
              ∙ ap
                  (λ (r : List (Event GetResponse) × Conn S).
                    (received (response (server.view s k) k o q) ∷ r.0, r.1))
                  e
              ∙ ap
                  (λ f. (
                    received (response (server.view s k) k o q) ∷ responses f keys os qs,
                    clean s',
                  ))
                  same,
          same' ∙ same,
        )

-- ===== src/Std/Writes.antt =====
-- handlers/memcached/std/handler.go: what the methods that write one key send, and what they make of
-- the answer.
use rend.Prelude.{
  Bool, true, false, ◌≡◌, refl, sym, ap, ◌⊎◌, ◌∙◌, [], ◌++◌, Option, none, some, Option-cases, inl,
  inr, Bytes,
}
use rend.Common.{Error}
use rend.Binprot.Wire.{Result}
use rend.Binprot.Commands.{
  write_set_cmd, write_add_cmd, write_replace_cmd, write_append_cmd, write_prepend_cmd,
  write_delete_cmd, write_touch_cmd,
}
use rend.Binprot.Headers.{ResponseHeader}
use rend.Binprot.Status.{decode_error}
use rend.Orcas.Writes.{Write, sets, adds, replaces, appends, prepends, deletes, touches, call}
use rend.Conn.{Conn, Peer, ◌>>◌, ◌>>=◌, return, clean, error_of, expect_success, discard}
use rend.Conn.Answers.{
  IsFrame, framed, answered, expect_success-ok, expect_success-error, discard-append, bind-ok,
  bind-err, sending, flush-then,
}
use rend.Std.{
  data_size, handle_set_common, set, add, replace, append, prepend, simple_cmd_local, delete, touch,
  handler,
}

-- The command, with its data.
abbrev pub command : Write → Bytes
command (sets r) = write_set_cmd r.key r.flags r.exptime (data_size r.value) 0 ++ r.value
command (adds r) = write_add_cmd r.key r.flags r.exptime (data_size r.value) 0 ++ r.value
command (replaces r) = write_replace_cmd r.key r.flags r.exptime (data_size r.value) 0 ++ r.value
command (appends r) = write_append_cmd r.key r.flags r.exptime (data_size r.value) 0 ++ r.value
command (prepends r) = write_prepend_cmd r.key r.flags r.exptime (data_size r.value) 0 ++ r.value
command (deletes r) = write_delete_cmd r.key 0
command (touches r) = write_touch_cmd r.key r.exptime 0

abbrev pub has_value : Write → Bool
has_value (deletes r) = false
has_value (touches r) = false
has_value _ = true

module _ {S : Type 0} (peer : Peer S) where
  abbrev left : {A : Type 0} → Result A × Conn S → Option Error × Conn S
  left out = (error_of out.0, out.1)

  -- A response with its body, to a command that the handler has written.
  judged :
      (h : ResponseHeader) (body : Bytes) (s : S)
      → IsFrame h body
      → (decode_error h ≡ none) ⊎ ((e : Error) × (decode_error h ≡ some e))
      → (decode_error h ≡ none → body ≡ [])
      → left ((do expect_success; return tt) (answered (framed h body []) s))
        ≡ (decode_error h, clean s)
  judged h body s v (inl d) empty =
      ap left (
        bind-ok expect_success (λ _. return tt) _ _ h
          (expect_success-ok h (body ++ []) s v.header_ok d))
      ∙ ap (λ b. (none, answered (b ++ []) s)) (empty d)
      ∙ ap (λ x. (x, clean s)) (sym d)
  judged h body s v (inr (e, d)) empty =
      ap left
        (bind-err expect_success (λ _. return tt) _ _ e (expect_success-error h body [] s e v d))
      ∙ ap (λ x. (x, clean s)) (sym d)

  -- `handleSetCommon` behind a command in the buffer.
  common-left :
      (bs value : Bytes) (h : ResponseHeader) (body : Bytes) (s s' : S)
      → peer (bs ++ value) s ≡ (framed h body [], s')
      → IsFrame h body
      → (decode_error h ≡ none → body ≡ [])
      → left (handle_set_common peer value (sending bs s)) ≡ (decode_error h, clean s')
  unfolding handle_set_common
  common-left bs value h body s s' e v empty =
      ap left (flush-then peer (do expect_success; return tt) (bs ++ value) _ s s' e)
      ∙ judged h body s' v (Option-cases (decode_error h)) empty

  -- `simpleCmdLocal` behind a command in the buffer.
  simple-left :
      (bs : Bytes) (h : ResponseHeader) (body : Bytes) (s s' : S)
      → peer bs s ≡ (framed h body [], s')
      → IsFrame h body
      → left (simple_cmd_local peer (sending bs s)) ≡ (decode_error h, clean s')
  unfolding simple_cmd_local
  simple-left bs h body s s' e v =
      ap left (flush-then peer (do got ← expect_success; discard got.total_body_length) bs _ s s' e)
      ∙ elim (Option-cases (decode_error h)) [
        | inl d ↦
            ap left (
              bind-ok expect_success (λ got. discard got.total_body_length) _ _ h
                (expect_success-ok h (body ++ []) s' v.header_ok d)
              ∙ discard-append h.total_body_length body [] s' v.body_ok)
            ∙ ap (λ x. (x, clean s')) (sym d)
        | inr (x, d) ↦
            ap left (
              bind-err expect_success (λ got. discard got.total_body_length) _ _ x
                (expect_success-error h body [] s' x v d))
            ∙ ap (λ y. (y, clean s')) (sym d)
      ]

  -- A method that writes one key sends exactly its command, with the data behind it, and returns the
  -- error of the one response that memcached answers, a status being taken for the error that it
  -- stands for. It reads the response whole, so that the connection has nothing under way before and
  -- behind the call. A success of Set, Add, Replace, Append or Prepend has no body; one of Delete or
  -- Touch may have one.
  pub call-answered :
      (x : Write) (h : ResponseHeader) (body : Bytes) (s s' : S)
      → peer (command x) s ≡ (framed h body [], s')
      → IsFrame h body
      → (has_value x ≡ true → decode_error h ≡ none → body ≡ [])
      → call (handler peer) x (clean s) ≡ (decode_error h, clean s')
  unfolding set add replace append prepend delete touch
  call-answered (sets r) h body s s' e v empty = common-left _ r.value h body s s' e v (empty refl)
  call-answered (adds r) h body s s' e v empty = common-left _ r.value h body s s' e v (empty refl)
  call-answered (replaces r) h body s s' e v empty =
      common-left _ r.value h body s s' e v (empty refl)
  call-answered (appends r) h body s s' e v empty =
      common-left _ r.value h body s s' e v (empty refl)
  call-answered (prepends r) h body s s' e v empty =
      common-left _ r.value h body s s' e v (empty refl)
  call-answered (deletes r) h body s s' e v empty = simple-left _ h body s s' e v
  call-answered (touches r) h body s s' e v empty = simple-left _ h body s s' e v

-- ===== src/Smtp/Protocol/Body.antt =====
-- The lines of a message against the transparency rule of RFC 5321, section 4.5.2.
use mail_server_client.Smtp.Handler.{handle_message_received, handle_line, handle_plain_line}
use mail_server_client.Smtp.Protocol.Conversation.{run_lines, run_lines-cons}
use mail_server_client.Base.{
  ◌+◌, ◌≤◌, ◌≡◌, refl, ap, ◌∙◌, false, List, [], ◌∷◌, ◌++◌, append_assoc, append-nil, map, Bytes,
  All, codes, is_space, bytes_eq, length, length-append, ◌==◌, to_upper_byte, arith, if◌then◌else◌,
  Bool-cases, inl, inr,
}
use mail_server_client.Smtp.Text.{starts_with_case_insensitive}
use mail_server_client.Smtp.Text.Trim.{IsTrimmed, trim-id}
use mail_server_client.Smtp.State.{
  SessionState, Context, World, returned, crlf, no_stage, receiving_message,
}
use mail_server_client.Smtp.Handler.Transaction.{unstuff, append_line, receive_line}

-- What a client sends for a line of its message: a leading dot is doubled.
pub stuff : Bytes → Bytes
stuff [] = []
stuff (x ∷ xs) = if x == b'.' then b'.' ∷ x ∷ xs else x ∷ xs

dot_is_no_space : is_space b'.' ≡ false
unfolding is_space
dot_is_no_space = refl

stuff-IsTrimmed : (line : Bytes) → IsTrimmed line → IsTrimmed (stuff line)
unfolding stuff
stuff-IsTrimmed [] t = t
stuff-IsTrimmed (x ∷ xs) t = elim (Bool-cases (x == b'.')) [
  | inl e ↦ rw e (record { front = dot_is_no_space; back = t.back })
  | inr e ↦ rw e t
]

stuff-ne-dot : (line : Bytes) → bytes_eq (stuff line) (codes ".") ≡ false
unfolding stuff bytes_eq
stuff-ne-dot [] = refl
stuff-ne-dot (x ∷ []) = ground arith
stuff-ne-dot (x ∷ y ∷ ys) = ground arith

-- A line whose leading dot, if it has one, is doubled is restored by the session.
pub unstuff-stuff : (line : Bytes) → unstuff (stuff line) ≡ line
unfolding stuff unstuff starts_with_case_insensitive to_upper_byte
unstuff-stuff [] = refl
unstuff-stuff (x ∷ []) = ground arith
unstuff-stuff (x ∷ y ∷ ys) = ground arith

-- A message as the session keeps it: each line with its end.
unfoldable pub text_of : List Bytes → Bytes
text_of [] = []
text_of (line ∷ lines) = (line ++ crlf) ++ text_of lines

-- A session that is in the middle of a message.
pub record IsReceiving (s : SessionState) : Type 0 where
  pub phase : s.phase ≡ receiving_message
  pub stage : s.auth_stage ≡ no_stage

abbrev pub with_text : Bytes → SessionState → SessionState
with_text text s = record s { message_buffer = s.message_buffer ++ text }

module _ (ctx : Context) where
  pub handle_receiving :
      (line : Bytes) (s : SessionState) (w : World)
      → IsReceiving s
      → IsTrimmed line
      → handle_message_received ctx line s w ≡ receive_line ctx line s w
  unfolding handle_message_received handle_line handle_plain_line
  handle_receiving line s w r t = rw (r.stage, handle_line) (rw (r.phase, trim-id line t) refl)

  append_line-fits :
      (line : Bytes) (s : SessionState) (w : World)
      → length s.message_buffer + length line + 2 ≤ ctx.config.max_message_size_bytes
      → append_line ctx line s w ≡ returned (with_text (line ++ crlf) s) w
  unfolding append_line
  append_line-fits line s w h = ground arith

  handle_stuffed :
      (line : Bytes) (s : SessionState) (w : World)
      → IsReceiving s
      → IsTrimmed line
      → length s.message_buffer + length line + 2 ≤ ctx.config.max_message_size_bytes
      → handle_message_received ctx (stuff line) s w ≡ returned (with_text (line ++ crlf) s) w
  handle_stuffed line s w r t h =
      handle_receiving (stuff line) s w r (stuff-IsTrimmed line t)
      ∙ (unfold receive_line in
          rw (stuff-ne-dot line, unstuff-stuff line) (append_line-fits line s w h))

  text_of-fits :
      (line : Bytes) (lines : List Bytes) (s : SessionState)
      → length s.message_buffer + length (text_of (line ∷ lines))
        ≤ ctx.config.max_message_size_bytes
      → (length s.message_buffer + length line + 2 ≤ ctx.config.max_message_size_bytes)
        × (length (s.message_buffer ++ (line ++ crlf)) + length (text_of lines)
            ≤ ctx.config.max_message_size_bytes)
  unfolding text_of
  text_of-fits line lines s h = omega (
    arith,
    length-append line crlf,
    length-append (line ++ crlf) (text_of lines),
    length-append s.message_buffer (line ++ crlf),
  )

  -- The lines of a message, sent with their leading dots doubled, are added to it as they were, and
  -- nothing else happens: for lines with no space at either end that fit the limit together.
  pub run_lines-stuff :
      (lines : List Bytes) (s : SessionState) (w : World)
      → IsReceiving s
      → All IsTrimmed lines
      → length s.message_buffer + length (text_of lines) ≤ ctx.config.max_message_size_bytes
      → run_lines ctx (map stuff lines) s w ≡ returned (with_text (text_of lines) s) w
  unfolding run_lines text_of
  run_lines-stuff [] s w r t h = rw (append-nil s.message_buffer) refl
  run_lines-stuff (line ∷ lines) s w r t h =
      let (fits, others) = text_of-fits line lines s h in
      run_lines-cons ctx (stuff line) (map stuff lines) s w (handle_stuffed line s w r t.0 fits)
      ∙ run_lines-stuff lines (with_text (line ++ crlf) s) w
          (record { phase = r.phase; stage = r.stage }) t.1 others
      ∙ ap (λ (b : Bytes). returned (record s { message_buffer = b }) w)
          (append_assoc s.message_buffer (line ++ crlf) (text_of lines))

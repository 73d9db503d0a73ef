-- ===== src/Client/Dialogue.antt =====
-- What the client has sent when it reports success.
use mail_server_client.Base.{
  ℕ, ℤ, ◌≡◌, refl, sym, ap, ◌∙◌, true, false, List, [], ◌∷◌, ◌++◌, append_assoc, append-nil, map,
  Bytes, codes, Bool-cases, Option-cases, inl, inr, if◌then◌else◌,
}
use mail_server_client.Client.Mail.{
  Mail, SmtpReply, SmtpResult, SmtpError, is_ok, fail, success, recipient_rejected, server_error,
  connection_failed,
}
use mail_server_client.Client.Wire.{
  Failure, host_not_found, connection_refused, timed_out, system_error, other_error, Attempt, done,
  failed, Peer, Wire, Exchange, ◌>>◌, on_done, pure, operation, connect, connected_to, sent_to,
  send_command, read_response, reply_of, read_reply, head_fault, tail_faults,
}
use mail_server_client.Client.Send.{
  has_code, expect, send_recipients, message_text, send_body, try_send, failure_result, end_send,
  send_mail_message,
}

pub sent_line : Bytes → Bytes
sent_line command = command ++ (13 ∷ 10 ∷ [])

pub rcpt_command : Bytes → Bytes
rcpt_command recipient = sent_line (codes "RCPT TO:<" ++ (recipient ++ codes ">"))

-- The client's side of a conversation in which every command is accepted.
pub dialogue : Mail → List Bytes
dialogue mail =
    sent_line (codes "EHLO client")
    ∷ sent_line (codes "MAIL FROM:<" ++ (mail.sender ++ codes ">"))
    ∷ (map rcpt_command mail.recipients
        ++ sent_line (codes "DATA") ∷ sent_line (message_text mail) ∷ sent_line (codes "QUIT") ∷ [])

true-false : true ≡ false → ⊥
true-false e = cc

module _ {P : Type 0} where
  -- From `w`, with these texts sent, the exchange goes on with `next` to its result.
  record Reached (next : Exchange P SmtpResult) (w : Wire P) (texts : List Bytes) (r : SmtpResult)
      (w' : Wire P) : Type 0 where
    last : Wire P
    rest : next last ≡ (done r, w')
    so_far : last.sent ≡ w.sent ++ texts

  operation-Reached :
      (f : Wire P → Wire P) (next : Exchange P SmtpResult) (w : Wire P) (texts : List Bytes)
      (r : SmtpResult) (w' : Wire P)
      → ((v : Wire P) → (f v).sent ≡ v.sent ++ texts)
      → (operation f >> next) w ≡ (done r, w')
      → Reached next w texts r w'
  unfolding operation
  operation-Reached f next w texts r w' s h = elim (Option-cases (head_fault w.faults)) [
    | inr (e, q) ↦ let g = rw (q, operation) at h in cc
    | inl q ↦
        let v = record w { faults = tail_faults w.faults } in
        record { last = f v; rest = rw (q, operation) at h; so_far = s v }
  ]

  read_response-sent : (w : Wire P) → (read_response w).1.sent ≡ w.sent
  unfolding read_response
  read_response-sent w = refl

  on_done-sent :
      {A B : Type 0} (x : Attempt A) (f : A → Attempt B) (w : Wire P)
      → (on_done x (λ a v. (f a, v)) w).1 ≡ w
  on_done-sent (done a) f w = refl
  on_done-sent (failed e) f w = refl

  read_reply-sent : (w : Wire P) → (read_reply w).1.sent ≡ w.sent
  unfolding read_reply
  read_reply-sent w =
      ap (λ (v : Wire P). v.sent) (on_done-sent (read_response w).0 reply_of (read_response w).1)
      ∙ read_response-sent w

  expected :
      (code : ℕ) (error : SmtpError) (text : Bytes) (next : Exchange P SmtpResult)
      (reply : Attempt SmtpReply) (v w' : Wire P) (r : SmtpResult)
      → ((t : Bytes) (c : ℤ) → is_ok (fail error t c) ≡ false)
      → on_done reply
          (λ (x : SmtpReply).
            if has_code code x then next else pure (fail error (text ++ x.text) x.code))
          v
        ≡ (done r, w')
      → is_ok r ≡ true
      → next v ≡ (done r, w')
  expected code error text next (failed e) v w' r bad h good = cc
  expected code error text next (done x) v w' r bad h good = elim (Bool-cases (has_code code x)) [
    | inl e ↦ rw e at h
    | inr e ↦
        let g = rw e at h in
        let same : fail error (text ++ x.text) x.code ≡ r = cc in
        let b = bad (text ++ x.text) x.code in
        absurd (true-false (sym good ∙ ap is_ok (sym same) ∙ b))
  ]

  expect-Reached :
      (code : ℕ) (error : SmtpError) (text : Bytes) (next : Exchange P SmtpResult) (w w' : Wire P)
      (r : SmtpResult)
      → ((t : Bytes) (c : ℤ) → is_ok (fail error t c) ≡ false)
      → expect code error text next w ≡ (done r, w')
      → is_ok r ≡ true
      → Reached next w [] r w'
  unfolding expect
  expect-Reached code error text next w w' r bad h good = record {
    last = (read_reply w).1;
    rest = expected code error text next (read_reply w).0 (read_reply w).1 w' r bad h good;
    so_far = read_reply-sent w ∙ sym (append-nil w.sent);
  }

  -- One exchange behind another.
  then-Reached :
      (next later : Exchange P SmtpResult) (w w' : Wire P) (r : SmtpResult) (xs ys : List Bytes)
      → (x : Reached later w xs r w')
      → ((v : Wire P) → later v ≡ (done r, w') → Reached next v ys r w')
      → Reached next w (xs ++ ys) r w'
  then-Reached next later w w' r xs ys x f =
      let y = f x.last x.rest in
      record {
        last = y.last;
        rest = y.rest;
        so_far = y.so_far ∙ ap (λ (s : List Bytes). s ++ ys) x.so_far ∙ append_assoc w.sent xs ys;
      }

  module _ (p : Peer P) (w' : Wire P) (r : SmtpResult) (good : is_ok r ≡ true) where
    send-Reached :
        (command : Bytes) (next : Exchange P SmtpResult) (w : Wire P)
        → (send_command p command >> next) w ≡ (done r, w')
        → Reached next w (sent_line command ∷ []) r w'
    unfolding send_command sent_line
    send-Reached command next w h =
        operation-Reached (sent_to p (sent_line command)) next w _ r w' (λ v. refl) h

    -- A command that must be answered with this code.
    command-Reached :
        (command : Bytes) (code : ℕ) (error : SmtpError) (text : Bytes)
        (next : Exchange P SmtpResult) (w : Wire P)
        → ((t : Bytes) (c : ℤ) → is_ok (fail error t c) ≡ false)
        → (send_command p command >> expect code error text next) w ≡ (done r, w')
        → Reached next w (sent_line command ∷ []) r w'
    command-Reached command code error text next w bad h =
        then-Reached next (expect code error text next) w w' r (sent_line command ∷ []) []
          (send-Reached command (expect code error text next) w h)
          (λ v g. expect-Reached code error text next v w' r bad g good)

    server_error-bad : (t : Bytes) (c : ℤ) → is_ok (fail server_error t c) ≡ false
    unfolding is_ok
    server_error-bad t c = refl

    recipient_rejected-bad : (t : Bytes) (c : ℤ) → is_ok (fail recipient_rejected t c) ≡ false
    unfolding is_ok
    recipient_rejected-bad t c = refl

    connection_failed-bad : (t : Bytes) (c : ℤ) → is_ok (fail connection_failed t c) ≡ false
    unfolding is_ok
    connection_failed-bad t c = refl

    recipients-Reached :
        (recipients : List Bytes) (next : Exchange P SmtpResult) (w : Wire P)
        → send_recipients p recipients next w ≡ (done r, w')
        → Reached next w (map rcpt_command recipients) r w'
    unfolding send_recipients rcpt_command
    recipients-Reached [] next w h = record { last = w; rest = h; so_far = sym (append-nil w.sent) }
    recipients-Reached (x ∷ xs) next w h =
        then-Reached next (send_recipients p xs next) w w' r _ (map rcpt_command xs)
          (command-Reached (codes "RCPT TO:<" ++ (x ++ codes ">")) 250 recipient_rejected
            (codes "Recipient <" ++ (x ++ codes "> rejected: ")) (send_recipients p xs next) w
            recipient_rejected-bad h)
          (recipients-Reached xs next)

    body-Reached :
        (mail : Mail) (w : Wire P)
        → send_body p mail w ≡ (done r, w')
        → Reached
            (pure success)
            w
            (sent_line (codes "DATA")
              ∷ sent_line (message_text mail)
              ∷ sent_line (codes "QUIT")
              ∷ [])
            r
            w'
    unfolding send_body
    body-Reached mail w h =
        then-Reached _ _ w w' r _ _
          (command-Reached (codes "DATA") 354 server_error (codes "DATA command rejected: ") _ w
            server_error-bad h)
          (λ v g.
            then-Reached _ _ v w' r _ _
              (command-Reached (message_text mail) 250 server_error (codes "Message not accepted: ")
                _ v server_error-bad g)
              (send-Reached (codes "QUIT") (pure success)))

    connect-Reached :
        (next : Exchange P SmtpResult) (w : Wire P)
        → (connect p >> next) w ≡ (done r, w')
        → Reached next w [] r w'
    unfolding connect
    connect-Reached next w h =
        operation-Reached (connected_to p) next w [] r w' (λ v. sym (append-nil v.sent)) h

    try_send-Reached :
        (mail : Mail) (w : Wire P)
        → try_send p mail w ≡ (done r, w')
        → Reached (pure success) w (dialogue mail) r w'
    unfolding try_send dialogue
    try_send-Reached mail w h = then-Reached _ _ w w' r [] _ (connect-Reached _ w h) λ v₁ g₁.
        then-Reached _ _ v₁ w' r [] _
          (expect-Reached 220 connection_failed (codes "Server greeting failed: ") _ v₁ w' r
            connection_failed-bad g₁ good)
          λ v₂ g₂.
            then-Reached _ _ v₂ w' r _ _
              (command-Reached (codes "EHLO client") 250 server_error (codes "EHLO rejected: ") _ v₂
                server_error-bad g₂)
              λ v₃ g₃.
                then-Reached _ _ v₃ w' r _ _
                  (command-Reached (codes "MAIL FROM:<" ++ (mail.sender ++ codes ">")) 250
                    server_error (codes "MAIL FROM rejected: ") _ v₃ server_error-bad g₃)
                  λ v₄ g₄.
                    then-Reached _ _ v₄ w' r _ _
                      (recipients-Reached mail.recipients (send_body p mail) v₄ g₄)
                      (body-Reached mail)

failure_result-bad :
    (address : Bytes) (port : ℕ) (e : Failure) → is_ok (failure_result address port e) ≡ false
unfolding failure_result is_ok
failure_result-bad address port host_not_found = refl
failure_result-bad address port connection_refused = refl
failure_result-bad address port timed_out = refl
failure_result-bad address port (system_error text) = refl
failure_result-bad address port (other_error text) = refl

success-sent :
    {P : Type 0} (mail : Mail) (w w' : Wire P) (r : SmtpResult)
    → Reached (pure success) w (dialogue mail) r w'
    → w'.sent ≡ w.sent ++ dialogue mail
success-sent mail w w' r x =
    let same : w' ≡ x.last = ap (λ t. t.1) (sym x.rest) in
    ap (λ (v : Wire _). v.sent) same ∙ x.so_far

end_send-sent :
    {P : Type 0} (p : Peer P) (address : Bytes) (port : ℕ) (mail : Mail) (w : Wire P)
    (t : Attempt SmtpResult × Wire P)
    → try_send p mail w ≡ t
    → is_ok (end_send address port t).0 ≡ true
    → (end_send address port t).1.sent ≡ w.sent ++ dialogue mail
unfolding end_send
end_send-sent p address port mail w (done r, w') h good =
    success-sent mail w w' r (try_send-Reached p w' r good mail w h)
end_send-sent p address port mail w (failed e, w') h good =
    absurd (true-false (sym good ∙ failure_result-bad address port e))

-- When the result is that the message was sent, whatever the peer answers and whichever operations of
-- the socket may fail, the client has sent exactly: EHLO, MAIL FROM with the sender, one RCPT TO for
-- each recipient in their order, DATA, the text of the message with the final dot, and QUIT.
pub send_mail_message-dialogue :
    {P : Type 0} (p : Peer P) (address : Bytes) (port : ℕ) (mail : Mail) (w : Wire P)
    → is_ok (send_mail_message p address port mail w).0 ≡ true
    → (send_mail_message p address port mail w).1.sent ≡ w.sent ++ dialogue mail
unfolding send_mail_message
send_mail_message-dialogue p address port mail w =
    end_send-sent p address port mail w (try_send p mail w) refl

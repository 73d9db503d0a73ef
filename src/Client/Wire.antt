-- ===== src/Client/Wire.antt =====
-- The socket of `SmtpClient`, and the reading of replies. The peer is a parameter: what it has sent
-- before the first command, and what it sends for each text that it receives. Each entry of `incoming`
-- is what one read_until takes off the socket; `faults` says of each operation of the socket whether it
-- fails. A read that finds the peer silent fails as at the end of the stream.
use mathlib.Core.Option
use mail_server_client.Base.{
  ℕ, zero, suc, ◌+◌, ◌-◌, ◌*◌, ℤ, pos, negsuc, Bool, true, false, ◌&&◌, Option, none, some, List,
  [], ◌∷◌, ◌++◌, Bytes, codes, length, take, drop, is_space, leb, ◌==◌, if◌then◌else◌,
}
use mail_server_client.Client.Mail.{SmtpReply}

pub data Failure : Type 0 where
  -- boost::system::system_error, by the codes that the client tells apart, with its what()
  host_not_found connection_refused timed_out : Failure
  system_error : Bytes → Failure
  -- any other std::exception
  other_error : Bytes → Failure

pub data Attempt {ℓ} (A : Type ℓ) : Type ℓ where
  done : A → Attempt A
  failed : Failure → Attempt A

pub record Peer (P : Type 0) : Type 0 where
  pub greeting : P → List Bytes × P
  pub respond : Bytes → P → List Bytes × P

pub record Wire (P : Type 0) : Type 0 where
  pub peer : P
  pub incoming : List Bytes
  pub sent : List Bytes
  pub faults : List (Option Failure)
  pub is_open : Bool

abbrev pub end_of_stream : Failure
end_of_stream = system_error (codes "End of file")

abbrev pub head_fault : List (Option Failure) → Option Failure
head_fault [] = none
head_fault (f ∷ fs) = f

abbrev pub tail_faults : List (Option Failure) → List (Option Failure)
tail_faults [] = []
tail_faults (f ∷ fs) = fs

-- What takes the wire and may fail.
abbrev pub Exchange : Type 0 → Type 0 → Type 0
Exchange P A = Wire P → Attempt A × Wire P

module _ {P : Type 0} where
  abbrev pub on_done : {A B : Type 0} → Attempt A → (A → Exchange P B) → Exchange P B
  on_done (done a) f w = f a w
  on_done (failed e) f w = (failed e, w)

  infixl 5 ◌>>=◌ ◌>>◌
  abbrev pub ◌>>=◌ : {A B : Type 0} → Exchange P A → (A → Exchange P B) → Exchange P B
  ◌>>=◌ m f w = on_done (m w).0 f (m w).1

  abbrev pub ◌>>◌ : {A B : Type 0} → Exchange P A → Exchange P B → Exchange P B
  m >> n = m >>= λ _. n

  abbrev pub pure : {A : Type 0} → A → Exchange P A
  pure a w = (done a, w)

  -- One operation of the socket, which fails or changes the wire.
  unfoldable pub operation : (Wire P → Wire P) → Exchange P (Unit {0})
  operation f w =
      let rest = record w { faults = tail_faults w.faults } in
      elim (head_fault w.faults) [ some e ↦ (failed e, rest) | none ↦ (done tt, f rest) ]

  -- resolve and connect: the peer accepts and greets
  abbrev pub connected_to : Peer P → Wire P → Wire P
  connected_to p w = record w {
    peer = (p.greeting w.peer).1;
    incoming = (p.greeting w.peer).0;
    is_open = true;
  }

  unfoldable pub connect : Peer P → Exchange P (Unit {0})
  unfolding operation
  connect p = operation (connected_to p)

  -- SendCommand
  abbrev pub sent_to : Peer P → Bytes → Wire P → Wire P
  sent_to p text w = record w {
    peer = (p.respond text w.peer).1;
    incoming = w.incoming ++ (p.respond text w.peer).0;
    sent = w.sent ++ text ∷ [];
  }

  unfoldable pub send_command : Peer P → Bytes → Exchange P (Unit {0})
  unfolding operation
  send_command p command = operation (sent_to p (command ++ (13 ∷ 10 ∷ [])))

-- m_socket.close(), which does nothing to a socket that is closed
abbrev pub close : {P : Type 0} → Wire P → Wire P
close w = record w { is_open = false }

-- line.size() >= 4 && line[3] == ' '
unfoldable pub is_last_line : Bytes → Bool
is_last_line (a ∷ b ∷ c ∷ d ∷ rest) = d == b' '
is_last_line _ = false

-- The loop of ReadResponse.
unfoldable pub read_lines :
    List Bytes → List (Option Failure) → Attempt Bytes × List Bytes × List (Option Failure)
unfolding is_last_line
read_lines incoming (some e ∷ faults) = (failed e, incoming, faults)
read_lines [] (none ∷ faults) = (failed end_of_stream, [], faults)
read_lines [] [] = (failed end_of_stream, [], [])
read_lines (line ∷ incoming) (none ∷ faults) =
    let rest = read_lines incoming faults in
    if is_last_line line then (done line, incoming, faults) else rest
read_lines (line ∷ incoming) [] =
    let rest = read_lines incoming [] in
    if is_last_line line then (done line, incoming, []) else rest

unfoldable pub read_response : {P : Type 0} → Exchange P Bytes
unfolding read_lines
read_response w =
    let (result, incoming, faults) = read_lines w.incoming w.faults in
    (result, record w { incoming = incoming; faults = faults })

-- std::stoi: white space, a sign, and digits up to the first other character; none is
-- std::invalid_argument. Three characters are never out of range.
is_digit : ℕ → Bool
is_digit c = leb b'0' c && leb c b'9'

digits_from : ℕ → Bytes → ℕ
unfolding is_digit
digits_from n [] = n
digits_from n (c ∷ rest) =
    let more = digits_from (n * 10 + (c - b'0')) rest in if is_digit c then more else n

unsigned_of : Bytes → Option ℕ
unfolding digits_from is_digit
unsigned_of [] = none
unsigned_of (c ∷ rest) = if is_digit c then some (digits_from 0 (c ∷ rest)) else none

minus : ℕ → ℤ
minus zero = pos 0
minus (suc n) = negsuc n

signed_of : Bytes → Option ℤ
unfolding unsigned_of minus
signed_of [] = none
signed_of (c ∷ rest) =
    if c == b'-'
    then Option.map minus (unsigned_of rest)
    else if c == b'+'
    then Option.map pos (unsigned_of rest)
    else Option.map pos (unsigned_of (c ∷ rest))

unfoldable pub stoi : Bytes → Option ℤ
unfolding signed_of
stoi [] = none
stoi (c ∷ rest) = let later = stoi rest in if is_space c then later else signed_of (c ∷ rest)

-- ReadReply behind ReadResponse
unfoldable pub reply_of : Bytes → Attempt SmtpReply
unfolding stoi
reply_of line =
    if leb 3 (length line)
    then elim (stoi (take 3 line)) [
      | none ↦ failed (other_error (codes "stoi"))
      | some code ↦
          done (record { code = code; text = if leb 5 (length line) then drop 4 line else [] })
    ]
    else done (record { code = pos 0; text = [] })

unfoldable pub read_reply : {P : Type 0} → Exchange P SmtpReply
unfolding read_response reply_of
read_reply = read_response >>= λ line w. (reply_of line, w)

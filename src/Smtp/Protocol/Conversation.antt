-- ===== src/Smtp/Protocol/Conversation.antt =====
-- The lines of one client, handled one behind the other until a handler throws.
use mail_server_client.Base.{◌≡◌, refl, ◌∙◌, none, some, List, [], ◌∷◌, ◌++◌, Bytes, arith, sym}
use mail_server_client.Smtp.State.{SessionState, Context, World, Outcome, returned}
use mail_server_client.Smtp.Handler.{handle_message_received}

abbrev pub and_then : Outcome → (SessionState → World → Outcome) → Outcome
and_then o f = elim o.thrown [ some e ↦ o | none ↦ f o.state o.world ]

unfoldable pub run_lines : Context → List Bytes → SessionState → World → Outcome
run_lines ctx [] s w = returned s w
run_lines ctx (line ∷ lines) s w =
    and_then (handle_message_received ctx line s w) (run_lines ctx lines)

and_then_assoc :
    (o : Outcome) (f g : SessionState → World → Outcome)
    → and_then (and_then o f) g ≡ and_then o (λ s w. and_then (f s w) g)
and_then_assoc o f g = ground arith

module _ (ctx : Context) where
  -- A conversation in two parts: the second begins if the first has not thrown.
  pub run_lines-append :
      (xs ys : List Bytes) (s : SessionState) (w : World)
      → run_lines ctx (xs ++ ys) s w ≡ and_then (run_lines ctx xs s w) (run_lines ctx ys)
  unfolding run_lines
  run_lines-append [] ys s w = refl
  run_lines-append (x ∷ xs) ys s w =
      (λ i. and_then (handle_message_received ctx x s w) (λ s' w'. run_lines-append xs ys s' w' i))
      ∙ sym
          (and_then_assoc (handle_message_received ctx x s w) (run_lines ctx xs) (run_lines ctx ys))

  -- A line whose handler returns is followed by the rest.
  pub run_lines-cons :
      (x : Bytes) (xs : List Bytes) (s : SessionState) (w : World) {s' : SessionState} {w' : World}
      → handle_message_received ctx x s w ≡ returned s' w'
      → run_lines ctx (x ∷ xs) s w ≡ run_lines ctx xs s' w'
  unfolding run_lines
  run_lines-cons x xs s w h = rw h refl

  -- A part that returns is followed by the next.
  pub run_lines-then :
      (xs ys : List Bytes) (s : SessionState) (w : World) {s' : SessionState} {w' : World}
      → run_lines ctx xs s w ≡ returned s' w'
      → run_lines ctx (xs ++ ys) s w ≡ run_lines ctx ys s' w'
  run_lines-then xs ys s w h = run_lines-append xs ys s w ∙ rw h refl

-- ===== src/Worker/TcpTransport/Framing.antt =====
-- A task on the wire: `id|prompt` and a newline, in any chunks.
use rdma_ai_platform.Common.{
  some_inj, ℕ, ◌≡◌, refl, sym, ap, ◌∙◌, ◌≢◌, inl, inr, some, append-nil, append_assoc, arith,
  Option-cases, All-append, true, List, [], ◌∷◌, ◌++◌,
}
use rdma_ai_platform.Text.{
  split_at_sound, split_at-none_sound, split_at, split_at-none, split_at-Lacks, Lacks, Text,
}
use rdma_ai_platform.Worker.TcpTransport.{
  gave_up, waiting, Received, Task, payload, dispatch, strip_return, parse_task, recv_loop,
  handle_client, Recv, bytes, interrupted, timed_out,
}

-- The answers of `recv` that bring a text: its bytes in chunks, with interruptions and time limits
-- in a running transport between them.
pub data Brings : List Recv → Text → Type 0 where
  done : (rs : List Recv) → Brings rs []
  chunk : {rs : List Recv} {s : Text} (c : Text) → Brings rs s → Brings (bytes c ∷ rs) (c ++ s)
  retry : {rs : List Recv} {s : Text} → Brings rs s → Brings (interrupted ∷ rs) s
  idle : {rs : List Recv} {s : Text} → Brings rs s → Brings (timed_out true ∷ rs) s

-- The first newline of a text is where any two readings of it part.
first_newline :
    (l r line rest : Text)
    → Lacks b'\n' l
    → Lacks b'\n' line
    → l ++ b'\n' ∷ r ≡ line ++ b'\n' ∷ rest
    → l ≡ line
first_newline l r line rest hl hline e =
    let same =
      sym (split_at-Lacks b'\n' l r hl)
      ∙ ap (split_at b'\n') e
      ∙ split_at-Lacks b'\n' line rest hline in
    ap (λ (p : Text × Text). p.0) (some_inj same)

-- The receive loop ends with the first line of what the chunks bring, however it is cut.
recv_loop-Brings :
    (line rest : Text) {rs : List Recv} {s : Text} (p : Text)
    → Brings rs s
    → Lacks b'\n' line
    → Lacks b'\n' p
    → p ++ s ≡ line ++ b'\n' ∷ rest
    → recv_loop rs p ≡ payload line
unfolding recv_loop
recv_loop-Brings line rest p (done rs) hl hp e = cc (
  split_at-none b'\n' p hp,
  split_at-Lacks b'\n' line rest hl,
  ap (split_at b'\n') (sym (append-nil p) ∙ e),
)
recv_loop-Brings line rest p (chunk {rs} {s} c more) hl hp e =
    elim (Option-cases (split_at b'\n' (p ++ c))) [
      | inl none_yet ↦
          rw (none_yet, recv_loop)
            (recv_loop-Brings line rest (p ++ c) more hl
              (split_at-none_sound b'\n' (p ++ c) none_yet) (append_assoc p c s ∙ e))
      | inr ((l, r), cut) ↦
          let (parts, plain) = split_at_sound b'\n' (p ++ c) l r cut in
          rw (cut, recv_loop)
            (ap payload (
              first_newline l (r ++ s) line rest plain hl (
                sym (append_assoc l (b'\n' ∷ r) s)
                ∙ ap (λ t. t ++ s) (sym parts)
                ∙ append_assoc p c s
                ∙ e)))
    ]
recv_loop-Brings line rest p (retry more) hl hp e = recv_loop-Brings line rest p more hl hp e
recv_loop-Brings line rest p (idle more) hl hp e = recv_loop-Brings line rest p more hl hp e

-- A text without a carriage return behind a separator keeps its end.
strip_return-Lacks : (c : ℕ) (a : Text) → c ≢ b'\r' → Lacks b'\r' a → strip_return (c ∷ a) ≡ c ∷ a
unfolding strip_return
strip_return-Lacks c [] hc h = ground arith
strip_return-Lacks c (d ∷ a) hc h = ap (◌∷◌ c) (strip_return-Lacks d a h.0 h.1)

strip_return-append :
    (a : Text) (c : ℕ) (b : Text) → strip_return (a ++ c ∷ b) ≡ a ++ strip_return (c ∷ b)
unfolding strip_return
strip_return-append [] c b = refl
strip_return-append (x ∷ []) c b = refl
strip_return-append (x ∷ y ∷ a) c b = ap (◌∷◌ x) (strip_return-append (y ∷ a) c b)

parse_task_lem :
    (id prompt : Text)
    → id ≢ []
    → Lacks b'|' id
    → parse_task (id ++ b'|' ∷ prompt) ≡ some (record { id = id; prompt = prompt })
unfolding parse_task
parse_task_lem [] prompt ne h = absurd (ne refl)
parse_task_lem (c ∷ id) prompt ne h = ground (arith, split_at-Lacks b'|' (c ∷ id) prompt h)

-- A line `id|prompt` on a connection dispatches exactly that task, in whatever chunks its bytes
-- come, with interruptions between them and anything behind its newline. The prompt may hold
-- separators; it may not hold a carriage return.
pub handle_client-Brings :
    (id prompt rest : Text) {rs : List Recv}
    → Brings rs ((id ++ b'|' ∷ prompt) ++ b'\n' ∷ rest)
    → id ≢ []
    → Lacks b'|' id
    → Lacks b'\n' id
    → Lacks b'\n' prompt
    → Lacks b'\r' prompt
    → handle_client rs ≡ some (record { id = id; prompt = prompt })
unfolding handle_client
handle_client-Brings id prompt rest {rs} brings ne bar newline plain return =
    let line = id ++ b'|' ∷ prompt in
    let one_line =
      All-append (λ x. x ≢ b'\n') id (b'|' ∷ prompt) newline ((λ e. absurd (omega arith)), plain) in
    let stripped =
      strip_return-append id b'|' prompt
      ∙ ap (◌++◌ id) (strip_return-Lacks b'|' prompt (λ e. absurd (omega arith)) return) in
    ap dispatch (recv_loop-Brings line rest [] brings one_line tt refl)
    ∙ ap parse_task stripped
    ∙ parse_task_lem id prompt ne bar

parse_task-id : (p : Text) {task : Task} → parse_task p ≡ some task → task.id ≢ []
unfolding parse_task
parse_task-id p h = ground arith

dispatch-id : (r : Received) {task : Task} → dispatch r ≡ some task → task.id ≢ []
unfolding dispatch
dispatch-id (payload p) h = parse_task-id (strip_return p) h
dispatch-id gave_up h = cc
dispatch-id waiting h = cc

-- A task that is dispatched always has an identifier.
pub handle_client-id : (rs : List Recv) {task : Task} → handle_client rs ≡ some task → task.id ≢ []
unfolding handle_client
handle_client-id rs h = dispatch-id (recv_loop rs []) h

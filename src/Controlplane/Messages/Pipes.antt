-- ===== src/Controlplane/Messages/Pipes.antt =====
-- The table of pipes after each operation on it.
use pipeops_k8_agent.Prelude.{
  ℕ, ◌+◌, ◌<◌, ◌≡◌, ◌≢◌, inl, inr, refl, sym, ap, ◌∙◌, none, some, arith, ℕ_discrete, Option-cases,
}
use pipeops_k8_agent.Prelude.Bytes.{Bytes, Bytes-discrete}
use pipeops_k8_agent.Prelude.Map
use pipeops_k8_agent.Prelude.Map.{
  Map, lookup-insert_self, lookup-insert_ne, lookup-delete_self, lookup-delete_ne,
}
use pipeops_k8_agent.Controlplane.Messages.Handle.{
  Client, Pipe, open_pipe, drop_pipe, on_pipe, pipe_of,
}

-- Every pipe of the table was opened before.
abbrev pub IsBelow : Client → Type 0
IsBelow c = (j : Bytes) (n : ℕ) → pipe_of c j ≡ some n → n < c.next_pipe

pub open-pipe_of_self : (id : Bytes) (c : Client) → pipe_of (open_pipe id c) id ≡ some c.next_pipe
unfolding open_pipe
open-pipe_of_self id c =
    lookup-insert_self Bytes-discrete id c.next_pipe c.active_request_body_pipes

pub open-pipe_of_ne :
    (id j : Bytes) (c : Client) → j ≢ id → pipe_of (open_pipe id c) j ≡ pipe_of c j
unfolding open_pipe
open-pipe_of_ne id j c h =
    lookup-insert_ne Bytes-discrete id j c.next_pipe c.active_request_body_pipes h

pub drop-pipe_of_self : (id : Bytes) (c : Client) → pipe_of (drop_pipe id c) id ≡ none
unfolding drop_pipe
drop-pipe_of_self id c = lookup-delete_self Bytes-discrete id c.active_request_body_pipes

pub drop-pipe_of_ne :
    (id j : Bytes) (c : Client) → j ≢ id → pipe_of (drop_pipe id c) j ≡ pipe_of c j
unfolding drop_pipe
drop-pipe_of_ne id j c h = lookup-delete_ne Bytes-discrete id j c.active_request_body_pipes h

pub open-IsBelow : (id : Bytes) (c : Client) → IsBelow c → IsBelow (open_pipe id c)
open-IsBelow id c h j n e =
    let next : (open_pipe id c).next_pipe ≡ c.next_pipe + 1 = unfold open_pipe in refl in
    elim (Bytes-discrete j id) [
      | yes q ↦
          let self : some c.next_pipe ≡ some n =
            sym (open-pipe_of_self id c) ∙ ap (pipe_of (open_pipe id c)) (sym q) ∙ e in
          let same : c.next_pipe ≡ n = ground (arith, self) in omega (arith, next, same)
      | no q ↦
          let before = h j n (sym (open-pipe_of_ne id j c q) ∙ e) in omega (arith, next, before)
    ]

pub drop-IsBelow : (id : Bytes) (c : Client) → IsBelow c → IsBelow (drop_pipe id c)
drop-IsBelow id c h j n e =
    let next : (drop_pipe id c).next_pipe ≡ c.next_pipe = unfold drop_pipe in refl in
    elim (Bytes-discrete j id) [
      | yes q ↦
          let self : none ≡ some n =
            sym (drop-pipe_of_self id c) ∙ ap (pipe_of (drop_pipe id c)) (sym q) ∙ e in
          absurd (ground (arith, self))
      | no q ↦
          let before = h j n (sym (drop-pipe_of_ne id j c q) ∙ e) in omega (arith, next, before)
    ]

pub on_pipe_self :
    (f : Pipe → Pipe) (n : ℕ) (q : Pipe) (c : Client)
    → Map.lookup ℕ_discrete n c.pipes ≡ some q
    → Map.lookup ℕ_discrete n (on_pipe f n c).pipes ≡ some (f q)
unfolding on_pipe
on_pipe_self f n q c e = rw e (lookup-insert_self ℕ_discrete n (f q) c.pipes)

pub on_pipe_ne :
    (f : Pipe → Pipe) (n p : ℕ) (c : Client)
    → n ≢ p
    → Map.lookup ℕ_discrete p (on_pipe f n c).pipes ≡ Map.lookup ℕ_discrete p c.pipes
unfolding on_pipe
on_pipe_ne f n p c h = elim (Option-cases (Map.lookup ℕ_discrete n c.pipes)) [
  | inl e ↦ rw e refl
  | inr (q, e) ↦ rw e (lookup-insert_ne ℕ_discrete n p (f q) c.pipes (λ i. h (sym i)))
]

pub on_pipe-pipe_of :
    (f : Pipe → Pipe) (n : ℕ) (j : Bytes) (c : Client) → pipe_of (on_pipe f n c) j ≡ pipe_of c j
unfolding on_pipe
on_pipe-pipe_of f n j c = refl

pub on_pipe-next : (f : Pipe → Pipe) (n : ℕ) (c : Client) → (on_pipe f n c).next_pipe ≡ c.next_pipe
unfolding on_pipe
on_pipe-next f n c = refl

-- ===== src/Controlplane/Messages/Tracks.antt =====
-- Which pipe holds the body of a request, through the changes of the table of pipes.
use pipeops_k8_agent.Prelude.{
  ℕ, ◌<◌, ◌≡◌, ◌≢◌, ◌⊎◌, inl, inr, refl, sym, ap, ◌∙◌, true, false, none, some, [], arith,
  ℕ_discrete,
}
use pipeops_k8_agent.Prelude.Bytes.{Bytes, Bytes-discrete}
use pipeops_k8_agent.Prelude.Map
use pipeops_k8_agent.Prelude.Map.{
  Map, lookup-insert_self, lookup-insert_ne, lookup-delete_self, lookup-delete_ne,
}
use pipeops_k8_agent.Controlplane.Messages.Handle.{
  Client, Pipe, PipeEnd, open_pipe, drop_pipe, on_pipe, pipe_of, pipe_close,
}
use pipeops_k8_agent.Controlplane.Messages.Body.{
  BodyState, reading, over, lost, pipe_for, is_reading,
}
use pipeops_k8_agent.Controlplane.Messages.Pipes.{
  IsBelow, open-pipe_of_self, open-pipe_of_ne, drop-pipe_of_self, drop-pipe_of_ne, on_pipe_self,
  on_pipe_ne, on_pipe-pipe_of, on_pipe-next,
}

-- Pipe p holds the body of the request; while that is read, and only then, p is the pipe of its ID
-- in the table, and no other ID has it.
pub record Tracks (id : Bytes) (p : ℕ) (st : BodyState) (c : Client) : Type 0 where
  pub old : p < c.next_pipe
  pub held : Map.lookup ℕ_discrete p c.pipes ≡ some (pipe_for st)
  pub own : (j : Bytes) → pipe_of c j ≡ some p → (j ≡ id) × (is_reading st ≡ true)
  pub entry : is_reading st ≡ true → pipe_of c id ≡ some p

module _ (id : Bytes) (p : ℕ) where
  pub other-Tracks :
      (f : Pipe → Pipe) (n : ℕ) (st : BodyState) (c : Client)
      → n ≢ p
      → Tracks id p st c
      → Tracks id p st (on_pipe f n c)
  other-Tracks f n st c h t = record {
    old = rw (on_pipe-next f n c) t.old;
    held = on_pipe_ne f n p c h ∙ t.held;
    own = λ j e. t.own j (sym (on_pipe-pipe_of f n j c) ∙ e);
    entry = λ r. on_pipe-pipe_of f n id c ∙ t.entry r;
  }

  pub own-Tracks :
      (f : Pipe → Pipe) (st st' : BodyState) (c : Client)
      → f (pipe_for st) ≡ pipe_for st'
      → is_reading st' ≡ is_reading st
      → Tracks id p st c
      → Tracks id p st' (on_pipe f p c)
  own-Tracks f st st' c h same t = record {
    old = rw (on_pipe-next f p c) t.old;
    held = on_pipe_self f p (pipe_for st) c t.held ∙ ap some h;
    own = λ j e. let (i, r) = t.own j (sym (on_pipe-pipe_of f p j c) ∙ e) in (i, same ∙ r);
    entry = λ r. on_pipe-pipe_of f p id c ∙ t.entry (sym same ∙ r);
  }

  -- An entry of the table that is not the body's is deleted.
  pub drop-Tracks :
      (j : Bytes) (st : BodyState) (c : Client)
      → (j ≢ id) ⊎ (is_reading st ≡ false)
      → Tracks id p st c
      → Tracks id p st (drop_pipe j c)
  drop-Tracks j st c h t = record {
    old = unfold drop_pipe in t.old;
    held = unfold drop_pipe in t.held;
    own = λ i e. elim (Bytes-discrete i j) [
      | yes q ↦
          let gone : none ≡ some p =
            sym (drop-pipe_of_self j c) ∙ ap (pipe_of (drop_pipe j c)) (sym q) ∙ e in
          absurd (ground (arith, gone))
      | no q ↦ t.own i (sym (drop-pipe_of_ne j i c q) ∙ e)
    ];
    entry = λ r. elim h [
      | inl n ↦ drop-pipe_of_ne j id c (λ e. n (sym e)) ∙ t.entry r
      | inr f ↦ absurd (ground (arith, r, f))
    ];
  }

  -- The body's own entry is deleted once its pipe has got its end.
  pub end-Tracks :
      (b : Bytes) (e : PipeEnd) (c : Client)
      → Tracks id p (reading b) c
      → Tracks id p (over b e) (drop_pipe id (on_pipe (pipe_close e) p c))
  end-Tracks b e c t =
      let c' = on_pipe (pipe_close e) p c in
      record {
        old = unfold drop_pipe in rw (on_pipe-next (pipe_close e) p c) t.old;
        held = unfold drop_pipe in on_pipe_self (pipe_close e) p (pipe_for (reading b)) c t.held;
        own = λ i h. elim (Bytes-discrete i id) [
          | yes q ↦
              let gone : none ≡ some p =
                sym (drop-pipe_of_self id c') ∙ ap (pipe_of (drop_pipe id c')) (sym q) ∙ h in
              absurd (ground (arith, gone))
          | no q ↦ absurd (
              q
                (t.own i (
                  sym (on_pipe-pipe_of (pipe_close e) p i c)
                  ∙ sym (drop-pipe_of_ne id i c' q)
                  ∙ h)).0)
        ];
        entry = λ r. absurd (ground (arith, r));
      }

  open-held :
      (j : Bytes) (c : Client)
      → p < c.next_pipe
      → Map.lookup ℕ_discrete p (open_pipe j c).pipes ≡ Map.lookup ℕ_discrete p c.pipes
  unfolding open_pipe
  open-held j c h = lookup-insert_ne ℕ_discrete c.next_pipe p _ c.pipes (λ e. omega (arith, e, h))

  -- The pipe that is opened is a new one.
  open-own :
      (j i : Bytes) (st : BodyState) (c : Client)
      → Tracks id p st c
      → pipe_of (open_pipe j c) i ≡ some p
      → (i ≢ j) × (i ≡ id) × (is_reading st ≡ true)
  open-own j i st c t e = elim (Bytes-discrete i j) [
    | yes q ↦
        let self : some c.next_pipe ≡ some p =
          sym (open-pipe_of_self j c) ∙ ap (pipe_of (open_pipe j c)) (sym q) ∙ e in
        let same : c.next_pipe ≡ p = ground (arith, self) in absurd (omega (arith, same, t.old))
    | no q ↦ let (same, r) = t.own i (sym (open-pipe_of_ne j i c q) ∙ e) in (q, same, r)
  ]

  open-old : (j : Bytes) (c : Client) → p < c.next_pipe → p < (open_pipe j c).next_pipe
  unfolding open_pipe
  open-old j c h = omega (arith, h)

  pub open-Tracks :
      (j : Bytes) (st : BodyState) (c : Client)
      → (j ≢ id) ⊎ (is_reading st ≡ false)
      → Tracks id p st c
      → Tracks id p st (open_pipe j c)
  open-Tracks j st c h t = record {
    old = open-old j c t.old;
    held = open-held j c t.old ∙ t.held;
    own = λ i e. let (_, same, r) = open-own j i st c t e in (same, r);
    entry = λ r. elim h [
      | inl n ↦ open-pipe_of_ne j id c (λ e. n (sym e)) ∙ t.entry r
      | inr f ↦ absurd (ground (arith, r, f))
    ];
  }

  -- Another request with the same ID takes the entry of the table.
  pub lost-Tracks :
      (b : Bytes) (c : Client) → Tracks id p (reading b) c → Tracks id p (lost b) (open_pipe id c)
  lost-Tracks b c t = record {
    old = open-old id c t.old;
    held = open-held id c t.old ∙ t.held;
    own = λ i e. let (n, same, r) = open-own id i (reading b) c t e in absurd (n same);
    entry = λ r. absurd (ground (arith, r));
  }

pub new-Tracks :
    (id : Bytes) (c : Client) → IsBelow c → Tracks id c.next_pipe (reading []) (open_pipe id c)
new-Tracks id c h = record {
  old = unfold open_pipe in omega arith;
  held = unfold open_pipe in lookup-insert_self ℕ_discrete c.next_pipe _ c.pipes;
  own = λ j e. elim (Bytes-discrete j id) [
    | yes q ↦ (q, refl)
    | no q ↦
        let before = h j c.next_pipe (sym (open-pipe_of_ne id j c q) ∙ e) in
        absurd (omega (arith, before))
  ];
  entry = λ r. open-pipe_of_self id c;
}

-- The table, the pipes and the number of the next one are the same.
abbrev pub IsSamePipes : Client → Client → Type 0
IsSamePipes c c' =
    (c'.active_request_body_pipes ≡ c.active_request_body_pipes)
    × (c'.pipes ≡ c.pipes)
    × (c'.next_pipe ≡ c.next_pipe)

pub same-Tracks :
    (id : Bytes) (p : ℕ) (st : BodyState) (c c' : Client)
    → IsSamePipes c c'
    → Tracks id p st c
    → Tracks id p st c'
same-Tracks id p st c c' (table, pipes, next) t =
    let entries : (j : Bytes) → pipe_of c' j ≡ pipe_of c j =
      λ j. ap (Map.lookup Bytes-discrete j) table in
    record {
      old = rw next t.old;
      held = ap (Map.lookup ℕ_discrete p) pipes ∙ t.held;
      own = λ j e. t.own j (sym (entries j) ∙ e);
      entry = λ r. entries id ∙ t.entry r;
    }

pub same-IsBelow : (c c' : Client) → IsSamePipes c c' → IsBelow c → IsBelow c'
same-IsBelow c c' (table, pipes, next) h j n e =
    rw next (h j n (sym (ap (Map.lookup Bytes-discrete j) table) ∙ e))

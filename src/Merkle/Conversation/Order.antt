-- ===== src/Merkle/Conversation/Order.antt =====
-- The message keys of merkle-tox-core/src/engine/conversation.rs and the order in which the nodes
-- arrive: a run of arrivals, each counted by `count_node`.
use Prim.Native.String.{String}
use rs_toxcore_c.Prelude.{
  ℕ, zero, suc, ◌+◌, ◌-◌, ◌*◌, ◌/◌, ◌%◌, ◌≤◌, ◌<◌, ◌≡◌, refl, sym, ap, ◌∙◌, subst, arith, Bool,
  true, false, ◌&&◌, ◌||◌, Option, none, some, List, [], ◌∷◌, ◌==◌, ltb, leb, ◌⊎◌, inl, inr,
  Bool-cases, Option-cases,
}
use rs_toxcore_c.Merkle.{
  put_pair, remove_pair, put-cases, put_pair-cases, remove_pair-some, keep_if-some,
}
use rs_toxcore_c.Merkle.Conversation.{
  ConversationKeys, Ratchet, Established, counter_mod, max_ratchet_skip, ratchet_step,
  ratchet_message_key, skip, keys_at, prune, peek_known, peek_fresh, peek_keys, start_key, advance,
  commit_node_key, track_sender_seq, advance_ratchet, count_node,
}

-- Nothing is both there and not.
some-none {κ} : {A : Type 0} {P : Type κ} {a : A} → some a ≡ none → P
some-none e = cc

-- The nodes that arrive: whether it skips the ratchet, the sender, its sequence number, the node's
-- hash and the time.
abbrev pub Arrival : Type 0
Arrival = Bool × ℕ × ℕ × ℕ × ℕ

-- The sender's ratchet has passed the number, or has not begun: counting the node moves nothing.
abbrev IsPassed : Established → ℕ → ℕ → Type 0
IsPassed s pk seq =
    (r : Ratchet)
    → s.sender_ratchets pk ≡ some r
    → (seq / counter_mod < r.epoch_id) ⊎ ((seq / counter_mod ≡ r.epoch_id) × (seq ≤ r.last_seq))

-- A conversation in which no ratchet has begun.
abbrev pub IsIdle : Established → Type 0
IsIdle s = ((pk : ℕ) → s.sender_ratchets pk ≡ none) × ((pk seq : ℕ) → s.skipped_keys pk seq ≡ none)

module _ (derive_key : String → List ℕ → ℕ) where
  -- The key of a chain after so many steps from its start.
  unfoldable pub stepped : ℕ → ℕ → ℕ
  stepped zero start = start
  stepped (suc n) start = ratchet_step derive_key (stepped n start)

  stepped-step :
      (n start : ℕ)
      → stepped n (ratchet_step derive_key start) ≡ ratchet_step derive_key (stepped n start)
  unfolding stepped
  stepped-step zero start = refl
  stepped-step (suc n) start = ap (ratchet_step derive_key) (stepped-step n start)

  stepped-add : (m n start : ℕ) → stepped m (stepped n start) ≡ stepped (m + n) start
  unfolding stepped
  stepped-add zero n start = let e : zero + n ≡ n = omega arith in rw e
  stepped-add (suc m) n start =
      let e : suc m + n ≡ suc (m + n) = omega arith in
      rw e (ap (ratchet_step derive_key) (stepped-add m n start))

  module _ (epochs : ℕ → Option ConversationKeys) (sender_keys : ℕ → ℕ → Option ℕ) where
    -- The key that the sender took for the message, by the derivation from the start of the epoch.
    abbrev pub IsKeyOf : ℕ → ℕ → ℕ → Type 0
    IsKeyOf pk seq k =
        (start : ℕ) × (start_key derive_key epochs sender_keys pk (seq / counter_mod) ≡ some start)
        × (k ≡ ratchet_message_key derive_key (stepped (seq % counter_mod - 1) start))

    abbrev Kept : (ℕ → ℕ → Option (ℕ × ℕ)) → Type 0
    Kept skipped = (pk seq : ℕ) (e : ℕ × ℕ) → skipped pk seq ≡ some e → IsKeyOf pk seq e.0

    abbrev IsChained : ℕ → Ratchet → Type 0
    IsChained pk r =
        (r.epoch_id ≡ r.last_seq / counter_mod)
        × ((start : ℕ) × (start_key derive_key epochs sender_keys pk (r.last_seq / counter_mod)
              ≡ some start)
            × (r.next_chain_key ≡ stepped (r.last_seq % counter_mod) start))

    pub record IsSound (s : Established) : Type 0 where
      pub same_epochs : s.epochs ≡ epochs
      pub same_keys : s.sender_keys ≡ sender_keys
      pub chained : (pk : ℕ) (r : Ratchet) → s.sender_ratchets pk ≡ some r → IsChained pk r
      pub kept : Kept s.skipped_keys

    put_pair-Kept :
        (m : ℕ → ℕ → Option (ℕ × ℕ)) (pk seq k t : ℕ)
        → Kept m
        → IsKeyOf pk seq k
        → Kept (put_pair m pk seq (k, t))
    put_pair-Kept m pk seq k t h g i j e f = elim (put_pair-cases m pk seq (k, t) i j e f) [
      | inr old ↦ h i j e old
      | inl (p, q, v) ↦
          subst (λ (x : ℕ). IsKeyOf x j e.0) p
            (subst (λ (x : ℕ). IsKeyOf pk x e.0) q (subst (λ (x : ℕ × ℕ). IsKeyOf pk seq x.0) v g))
    ]

    -- The chain of an epoch, at the message `epoch * counter_mod + (c + 1)`.
    skip-Kept :
        (n pk epoch c seq now_ms start : ℕ) (m : ℕ → ℕ → Option (ℕ × ℕ))
        → start_key derive_key epochs sender_keys pk epoch ≡ some start
        → seq ≡ epoch * counter_mod + (c + 1)
        → c + n + 1 < counter_mod
        → Kept m
        → Kept (skip derive_key n pk seq now_ms (stepped c start) m).0
    unfolding skip stepped
    skip-Kept zero pk epoch c seq now_ms start m e at h k = k
    skip-Kept (suc n) pk epoch c seq now_ms start m e at h k =
        let quotient : seq / counter_mod ≡ epoch = omega arith in
        let rest : seq % counter_mod - 1 ≡ c = omega arith in
        let g : IsKeyOf pk seq (ratchet_message_key derive_key (stepped c start)) =
          (start, rw quotient e, rw rest refl) in
        skip-Kept n pk epoch (suc c) (seq + 1) now_ms start _ e (omega arith) (omega arith)
          (put_pair-Kept m pk seq _ now_ms k g)

    skip_chain :
        (n pk seq now_ms k : ℕ) (m : ℕ → ℕ → Option (ℕ × ℕ))
        → (skip derive_key n pk seq now_ms k m).1 ≡ stepped n k
    unfolding skip stepped
    skip_chain zero pk seq now_ms k m = refl
    skip_chain (suc n) pk seq now_ms k m =
        skip_chain n pk (seq + 1) now_ms (ratchet_step derive_key k) _ ∙ stepped-step n k

    -- The next key is that of the chain after the message, unless the message is an old one.
    abbrev Follows : Established → ℕ → ℕ → ℕ → Type 0
    Follows s pk seq next =
        ((r : Ratchet) × (s.sender_ratchets pk ≡ some r)
          × (r.epoch_id ≡ seq / counter_mod)
          × (seq ≤ r.last_seq))
        ⊎ ((start : ℕ) × (start_key derive_key epochs sender_keys pk (seq / counter_mod)
              ≡ some start)
            × (next ≡ stepped (seq % counter_mod) start))

    abbrev Answers : Established → ℕ → ℕ → Option (ℕ × ℕ) → Type 0
    Answers s pk seq none = Unit
    Answers s pk seq (some (k, next)) = IsKeyOf pk seq k × Follows s pk seq next

    keys_at-Answers :
        (s : Established) (pk seq start key : ℕ)
        → start_key derive_key epochs sender_keys pk (seq / counter_mod) ≡ some start
        → 1 ≤ seq % counter_mod
        → key ≡ stepped (seq % counter_mod - 1) start
        → Answers s pk seq (some (keys_at derive_key key))
    unfolding keys_at stepped
    keys_at-Answers s pk seq start key e h k =
        let count : seq % counter_mod ≡ suc (seq % counter_mod - 1) = omega arith in
        (
          (start, e, ap (ratchet_message_key derive_key) k),
          inr (start, e, ap (ratchet_step derive_key) k ∙ sym (ap (λ n. stepped n start) count)),
        )

    remembered :
        (s : Established) (pk seq : ℕ) (r : Ratchet)
        → IsSound s
        → s.sender_ratchets pk ≡ some r
        → r.epoch_id ≡ seq / counter_mod
        → seq ≤ r.last_seq
        → (o : Option (ℕ × ℕ)) → s.skipped_keys pk seq ≡ o
        → Answers s pk seq (elim o [ none ↦ none | some (k_msg, t) ↦ some (k_msg, 0) ])
    remembered s pk seq r v e same old none f = tt
    remembered s pk seq r v e same old (some (k, t)) f =
        (v.kept pk seq (k, t) f, inl (r, e, same, old))

    peek_known-IsSound :
        (s : Established) (pk seq now_ms : ℕ) (r : Ratchet)
        → IsSound s
        → s.sender_ratchets pk ≡ some r
        → r.epoch_id ≡ seq / counter_mod
        → 1 ≤ seq % counter_mod
        → let (s', o) = peek_known derive_key s pk seq now_ms r in IsSound s' × Answers s pk seq o
    unfolding peek_known
    peek_known-IsSound s pk seq now_ms r v e same h =
        let (own, (start, began, chain)) = v.chained pk r e in
        let in_epoch : r.last_seq / counter_mod ≡ seq / counter_mod = sym own ∙ same in
        let known =
          subst (λ (n : ℕ). start_key derive_key epochs sender_keys pk n ≡ some start) in_epoch
            began in
        elim (Bool-cases (seq == r.last_seq + 1)) [
          | inl next ↦
              let count : r.last_seq % counter_mod ≡ seq % counter_mod - 1 =
                ground (arith, next, in_epoch) in
              rw next (
                v,
                keys_at-Answers s pk seq start r.next_chain_key known h
                    (chain ∙ ap (λ (n : ℕ). stepped n start) count),
              )
          | inr other ↦ elim (Bool-cases (leb seq r.last_seq)) [
            | inl old ↦
                rw (other, old)
                  (
                    v,
                    remembered s pk seq r v e same (ground (arith, old)) (s.skipped_keys pk seq)
                        refl,
                  )
            | inr new ↦ elim (Bool-cases (ltb max_ratchet_skip (seq - (r.last_seq + 1)))) [
              | inl far ↦ rw (other, new, far) (v, tt)
              | inr near ↦
                  let n = seq - (r.last_seq + 1) in
                  let c = r.last_seq % counter_mod in
                  let later : r.last_seq < seq = ground (arith, new) in
                  let count : n + c ≡ seq % counter_mod - 1 = omega (arith, later, in_epoch) in
                  let first : r.last_seq + 1 ≡ (r.last_seq / counter_mod) * counter_mod + (c + 1) =
                    omega arith in
                  let short : c + n + 1 < counter_mod = omega (arith, later, in_epoch) in
                  let held =
                    skip-Kept n pk (r.last_seq / counter_mod) c (r.last_seq + 1) now_ms start
                      s.skipped_keys began first short v.kept in
                  let key =
                    skip_chain n pk (r.last_seq + 1) now_ms r.next_chain_key s.skipped_keys in
                  rw (other, new, near)
                    (
                      record {
                        same_epochs = v.same_epochs;
                        same_keys = v.same_keys;
                        chained = v.chained;
                        kept =
                            subst
                              (λ (x : ℕ).
                                Kept
                                  (skip derive_key n pk (r.last_seq + 1) now_ms x s.skipped_keys).0)
                              (sym chain) held;
                      },
                      keys_at-Answers s pk seq start _ known h (
                          key
                          ∙ ap (stepped n) chain
                          ∙ stepped-add n c start
                          ∙ ap (λ (n : ℕ). stepped n start) count),
                    )
            ]
          ]
        ]

    peek_fresh-IsSound :
        (s : Established) (pk seq now_ms : ℕ)
        → IsSound s
        → 1 ≤ seq % counter_mod
        → let (s', o) = peek_fresh derive_key s pk seq now_ms in IsSound s' × Answers s pk seq o
    unfolding peek_fresh stepped
    peek_fresh-IsSound s pk seq now_ms v h =
        elim (Option-cases (start_key derive_key s.epochs s.sender_keys pk (seq / counter_mod))) [
          | inl e ↦ rw (e, peek_fresh) (v, tt)
          | inr (start, e) ↦
              let counter = seq % counter_mod in
              let epoch = seq / counter_mod in
              let known : start_key derive_key epochs sender_keys pk epoch ≡ some start =
                rw (sym v.same_epochs, sym v.same_keys) e in
              let held =
                skip-Kept (counter - 1) pk epoch 0 (epoch * counter_mod + 1) now_ms start
                  s.skipped_keys known (omega arith) (omega arith) v.kept in
              let key =
                skip_chain (counter - 1) pk (epoch * counter_mod + 1) now_ms start s.skipped_keys in
              elim (Bool-cases (ltb max_ratchet_skip counter)) [
                | inl far ↦ rw (e, peek_fresh, far) (v, tt)
                | inr near ↦
                    rw (e, peek_fresh, near)
                      (
                        record {
                          same_epochs = v.same_epochs;
                          same_keys = v.same_keys;
                          chained = v.chained;
                          kept = held;
                        },
                        keys_at-Answers s pk seq start _ known h key,
                      )
              ]
        ]

    -- Whatever the state of the ratchets, the key for a message is the one of its place in the chain.
    peek_keys-IsSound :
        (s : Established) (pk seq now_ms : ℕ)
        → IsSound s
        → 1 ≤ seq % counter_mod
        → let (s', o) = peek_keys derive_key s pk seq now_ms in IsSound s' × Answers s pk seq o
    unfolding peek_keys prune
    peek_keys-IsSound s pk seq now_ms v h = elim (Option-cases (s.sender_ratchets pk)) [
      | inl e ↦ rw (e, peek_keys) (peek_fresh-IsSound fresh pk seq now_ms pruned h)
      | inr (r, e) ↦ elim (Bool-cases (r.epoch_id == seq / counter_mod)) [
        | inl same ↦
            rw (e, peek_keys, same)
              (peek_known-IsSound fresh pk seq now_ms r pruned e (ground (arith, same)) h)
        | inr other ↦ rw (e, peek_keys, other) (peek_fresh-IsSound fresh pk seq now_ms pruned h)
      ]
    ]
      where
        fresh : Established
        fresh = prune derive_key s now_ms

        pruned : IsSound fresh
        pruned = record {
          same_epochs = v.same_epochs;
          same_keys = v.same_keys;
          chained = v.chained;
          kept = λ i j e f. v.kept i j e (keep_if-some _ (s.skipped_keys i j) e f);
        }

    Follows-IsChained :
        (s : Established) (pk seq next node_hash : ℕ)
        → Follows s pk seq next
        → ((r : Ratchet)
            → s.sender_ratchets pk ≡ some r
            → r.epoch_id ≡ seq / counter_mod
            → r.last_seq < seq)
        → IsChained pk (record {
          last_seq = seq;
          next_chain_key = next;
          last_node_hash = some node_hash;
          epoch_id = seq / counter_mod;
        })
    Follows-IsChained s pk seq next node_hash (inr (start, e, n)) ahead = (refl, (start, e, n))
    Follows-IsChained s pk seq next node_hash (inl (r, e, same, old)) ahead =
        let later = ahead r e same in absurd (omega arith)

    advance-IsSound :
        (s : Established) (pk : ℕ) (r : Ratchet)
        → IsSound s
        → IsChained pk r
        → IsSound (advance derive_key s pk r)
    unfolding advance
    advance-IsSound s pk r v c = record {
      same_epochs = v.same_epochs;
      same_keys = v.same_keys;
      chained = λ j w e. elim (put-cases s.sender_ratchets pk r j w e) [
        | inl (p, q) ↦ subst (λ (x : ℕ). IsChained x w) p (subst (IsChained pk) q c)
        | inr old ↦ v.chained j w old
      ];
      kept = v.kept;
    }

    ahead :
        {seq : ℕ} {o : Option Ratchet} (r w : Ratchet)
        → o ≡ some r
        → o ≡ some w
        → w.epoch_id ≡ seq / counter_mod
        → (ltb (seq / counter_mod) r.epoch_id
            || ((r.epoch_id == seq / counter_mod) && leb seq r.last_seq))
          ≡ false
        → w.last_seq < seq
    ahead {seq} r w e g same h =
        let eq : w ≡ r = cc in
        let epoch = ap (λ (x : Ratchet). x.epoch_id) eq in
        let last = ap (λ (x : Ratchet). x.last_seq) eq in ground (arith, h, same, epoch, last)

    commit_node_key-IsSound :
        (s : Established) (pk seq next node_hash : ℕ)
        → IsSound s
        → Follows s pk seq next
        → IsSound (commit_node_key derive_key s pk seq next node_hash (seq / counter_mod)).0
    unfolding commit_node_key
    commit_node_key-IsSound s pk seq next node_hash v f =
        elim (Option-cases (s.sender_ratchets pk)) [
          | inl e ↦
              rw (e, commit_node_key)
                (advance-IsSound cut pk _ left
                  (Follows-IsChained s pk seq next node_hash f (λ r g. cc)))
          | inr (r, e) ↦
              elim (Bool-cases (
                ltb (seq / counter_mod) r.epoch_id
                || ((r.epoch_id == seq / counter_mod) && leb seq r.last_seq))) [
                  | inl yes' ↦ rw (e, commit_node_key, yes') left
                  | inr no' ↦
                      rw (e, commit_node_key, no')
                        (advance-IsSound cut pk _ left (
                          Follows-IsChained s pk seq next node_hash f
                            (λ w g same. ahead r w e g same no')))
                ]
        ]
      where
        cut : Established
        cut = record s { skipped_keys = remove_pair s.skipped_keys pk seq }

        left : IsSound cut
        left = record {
          same_epochs = v.same_epochs;
          same_keys = v.same_keys;
          chained = v.chained;
          kept = λ i j e g. v.kept i j e (remove_pair-some s.skipped_keys pk seq i j e g);
        }

    peek_fresh_ratchets :
        (s : Established) (pk seq now_ms : ℕ)
        → (peek_fresh derive_key s pk seq now_ms).0.sender_ratchets ≡ s.sender_ratchets
    unfolding peek_fresh
    peek_fresh_ratchets s pk seq now_ms =
        elim (Option-cases (start_key derive_key s.epochs s.sender_keys pk (seq / counter_mod))) [
          | inl e ↦ rw (e, peek_fresh) refl
          | inr (start, e) ↦ elim (Bool-cases (ltb max_ratchet_skip (seq % counter_mod))) [
            | inl far ↦ rw (e, peek_fresh, far) refl
            | inr near ↦ rw (e, peek_fresh, near) refl
          ]
        ]

    peek_known_ratchets :
        (s : Established) (pk seq now_ms : ℕ) (r : Ratchet)
        → (peek_known derive_key s pk seq now_ms r).0.sender_ratchets ≡ s.sender_ratchets
    unfolding peek_known
    peek_known_ratchets s pk seq now_ms r = ground arith

    peek_keys_ratchets :
        (s : Established) (pk seq now_ms : ℕ)
        → (peek_keys derive_key s pk seq now_ms).0.sender_ratchets ≡ s.sender_ratchets
    unfolding peek_keys prune
    peek_keys_ratchets s pk seq now_ms = elim (Option-cases (s.sender_ratchets pk)) [
      | inl e ↦ rw (e, peek_keys) (peek_fresh_ratchets (prune derive_key s now_ms) pk seq now_ms)
      | inr (r, e) ↦ elim (Bool-cases (r.epoch_id == seq / counter_mod)) [
        | inl same ↦
            rw (e, peek_keys, same)
              (peek_known_ratchets (prune derive_key s now_ms) pk seq now_ms r)
        | inr other ↦
            rw (e, peek_keys, other) (peek_fresh_ratchets (prune derive_key s now_ms) pk seq now_ms)
      ]
    ]

    advance_ratchet-IsSound :
        (s : Established) (pk seq node_hash now : ℕ)
        → IsSound s
        → 1 ≤ seq % counter_mod
        → IsSound (advance_ratchet derive_key s pk seq node_hash now).0
    unfolding advance_ratchet
    advance_ratchet-IsSound s pk seq node_hash now v h =
        elim (Option-cases (peek_keys derive_key s pk seq now).1) [
          | inl e ↦ rw (e, advance_ratchet) sound
          | inr ((k, next), e) ↦
              let (of_key, follows) = subst (Answers s pk seq) e answers in
              rw (e, advance_ratchet)
                (commit_node_key-IsSound peeked pk seq next node_hash sound
                  (rw (peek_keys_ratchets s pk seq now) follows))
        ]
      where
        peeked : Established
        peeked = (peek_keys derive_key s pk seq now).0

        sound : IsSound peeked
        sound = (peek_keys-IsSound s pk seq now v h).0

        answers : Answers s pk seq (peek_keys derive_key s pk seq now).1
        answers = (peek_keys-IsSound s pk seq now v h).1

  unfoldable pub advance_all : Established → List Arrival → Established
  advance_all s [] = s
  advance_all s ((skips, pk, seq, node_hash, now) ∷ nodes) =
      advance_all (count_node derive_key s skips pk seq node_hash now).0 nodes

  -- The counters of messages begin at 1, and a node that skips the ratchet arrives only when the
  -- ratchet of its sender has passed its number or has not begun.
  abbrev pub IsOrderly : Established → List Arrival → Type 0
  IsOrderly s [] = Unit
  IsOrderly s ((true, pk, seq, node_hash, now) ∷ nodes) =
      IsPassed s pk seq × IsOrderly (count_node derive_key s true pk seq node_hash now).0 nodes
  IsOrderly s ((false, pk, seq, node_hash, now) ∷ nodes) =
      (1 ≤ seq % counter_mod)
      × IsOrderly (count_node derive_key s false pk seq node_hash now).0 nodes

  track_sender_seq_passed :
      (s : Established) (pk seq : ℕ)
      → IsPassed s pk seq
      → track_sender_seq derive_key s pk seq (seq / counter_mod) ≡ s
  unfolding track_sender_seq
  track_sender_seq_passed s pk seq passed = elim (Option-cases (s.sender_ratchets pk)) [
    | inl e ↦ rw (track_sender_seq, e) refl
    | inr (r, e) ↦
        let stays : (ltb r.epoch_id (seq / counter_mod)
              || ((seq / counter_mod == r.epoch_id) && ltb r.last_seq seq))
            ≡ false =
          elim (passed r e) [
            | inl earlier ↦ ground (arith, earlier)
            | inr (same, old) ↦ ground (arith, same, old)
          ] in
        rw (track_sender_seq, e, stays) refl
  ]

  advance_all-IsSound :
      (epochs : ℕ → Option ConversationKeys) (sender_keys : ℕ → ℕ → Option ℕ) (nodes : List Arrival)
      (s : Established)
      → IsOrderly s nodes
      → IsSound epochs sender_keys s
      → IsSound epochs sender_keys (advance_all s nodes)
  unfolding advance_all count_node
  advance_all-IsSound epochs sender_keys [] s h v = v
  advance_all-IsSound epochs sender_keys ((true, pk, seq, node_hash, now) ∷ nodes) s h v =
      advance_all-IsSound epochs sender_keys nodes _ h.1
        (subst (IsSound epochs sender_keys) (sym (track_sender_seq_passed s pk seq h.0)) v)
  advance_all-IsSound epochs sender_keys ((false, pk, seq, node_hash, now) ∷ nodes) s h v =
      advance_all-IsSound epochs sender_keys nodes _ h.1
        (advance_ratchet-IsSound epochs sender_keys s pk seq node_hash now v h.0)

  -- Whatever nodes have arrived since a state without ratchets and skipped keys, in any order, with
  -- repetitions and gaps, a key that `peek_keys` finds for a message is the one of the message's
  -- place in the chain of its epoch: as many steps from the start as the counter of the message
  -- says. Counters begin at 1. A node that skips the ratchet may be among the nodes only where it
  -- moves no ratchet, its sender's having passed its number or not begun; and no node among them
  -- distributes a key or begins an epoch.
  pub peek_keys_lem :
      (s : Established) (nodes : List Arrival) (pk seq now k next : ℕ)
      → IsIdle s
      → IsOrderly s nodes
      → 1 ≤ seq % counter_mod
      → (peek_keys derive_key (advance_all s nodes) pk seq now).1 ≡ some (k, next)
      → IsKeyOf s.epochs s.sender_keys pk seq k
  peek_keys_lem s nodes pk seq now k next (idle, empty) h c e =
      let begun : IsSound s.epochs s.sender_keys s = record {
        same_epochs = refl;
        same_keys = refl;
        chained = λ j r f. some-none (sym f ∙ idle j);
        kept = λ i j x f. some-none (sym f ∙ empty i j);
      } in
      let sound = advance_all-IsSound s.epochs s.sender_keys nodes s h begun in
      let answers =
        (peek_keys-IsSound s.epochs s.sender_keys (advance_all s nodes) pk seq now sound c).1 in
      (subst (Answers s.epochs s.sender_keys (advance_all s nodes) pk seq) e answers).0

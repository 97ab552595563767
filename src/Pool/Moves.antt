-- ===== src/Pool/Moves.antt =====
-- What the methods of class fixed_block_pool (internal/memory_pool.h) do to its invariant.
use container_system.Base.{
  ℕ, suc, ◌+◌, ◌-◌, ◌*◌, ◌%◌, ◌^◌, ◌≤◌, ◌≡◌, ◌≢◌, refl, ap, ◌∙◌, true, false, Bool-cases, inl, inr,
  some, List, [], ◌∷◌, ◌++◌, length, ◌==◌, ==_iff, if◌then◌else◌, arith, length-append,
}
use native.Mathlib.Nat.{suc-mul}
use container_system.Pool.{
  FixedBlockPool, new_pool, store, allocate_chunk_unlocked, pop_block, in_chunks, deallocate,
}
use container_system.Pool.Chains.{
  Chain, occurrences, starts_from, starts, link_blocks-Chain, store-front, starts_from-inside,
  starts_from_le-one, starts-in_chunks, Apart, starts-Apart,
}
use container_system.Pool.Reachable.{without, Fresh, Valid}

pub new_pool-Valid : (size n : ℕ) → Valid (new_pool size n) []
unfolding new_pool
new_pool-Valid size n = record {
  free = [];
  chain = refl;
  parts = λ a. omega arith;
  single = λ a. omega arith;
  total = omega arith;
  count = refl;
  sized = λ e. ground arith;
  null = refl;
}

starts-append :
    (n size base a : ℕ) (chunks : List ℕ)
    → starts n size (chunks ++ (base ∷ [])) a ≡ starts n size chunks a + starts_from n 0 base size a
starts-append n size base a [] = omega arith
starts-append n size base a (c ∷ chunks) = omega (arith, starts-append n size base a chunks)

occurrences-without :
    (a : ℕ) (held : List ℕ)
    → occurrences a held ≢ 0
    → ((b : ℕ) → occurrences b (without a held) + (if b == a then 1 else 0) ≡ occurrences b held)
      × (suc (length (without a held)) ≡ length held)
occurrences-without a [] h = absurd (h refl)
occurrences-without a (c ∷ held) h = elim (Bool-cases (a == c)) [
  | inl e ↦ (λ b. ground (arith, e), ground (arith, e))
  | inr e ↦
      let (o, l) = occurrences-without a held (λ z. h (ground (arith, e, z))) in
      (λ b. ground (arith, e, o b), ground (arith, e, l))
]

-- The head of a free list that is not empty is handed out.
pop-Chain :
    (p : FixedBlockPool) (held : List ℕ) (v : Valid p held) (free : List ℕ)
    → p.free_list ≢ 0
    → Chain p.memory p.free_list free
    → ((a : ℕ)
        → occurrences a free + occurrences a held
          ≡ starts p.blocks_per_chunk p.block_size p.chunks a)
    → length free + length held ≡ length p.chunks * p.blocks_per_chunk
    → (occurrences p.free_list held ≡ 0) × Valid (pop_block p).0 (p.free_list ∷ held)
pop-Chain p held v [] z c parts total = absurd (z c)
pop-Chain p held v (a ∷ free) z (e, na, c) parts total = (
  ground (arith, e, parts p.free_list, v.single p.free_list),
  record {
    free = free;
    chain = rw e c;
    parts = λ b. ground (arith, e, parts b);
    single = v.single;
    total = omega (arith, total);
    count = omega (arith, v.count);
    sized = v.sized;
    null = v.null;
  },
)

pub pop_block-Valid :
    (p : FixedBlockPool) (held : List ℕ)
    → p.free_list ≢ 0
    → Valid p held
    → (occurrences p.free_list held ≡ 0) × Valid (pop_block p).0 (p.free_list ∷ held)
pop_block-Valid p held z v = pop-Chain p held v v.free z v.chain v.parts v.total

-- A block of the new chunk is a block of no other, and is not null.
chunk-single :
    (n size base a : ℕ) (chunks : List ℕ)
    → size ≢ 0
    → Apart base (size * n) chunks
    → starts n size chunks a ≤ 1
    → starts_from n 0 base size a + starts n size chunks a ≤ 1
chunk-single n size base a chunks z d s = elim (Bool-cases (starts_from n 0 base size a == 0)) [
  | inl e ↦ omega (arith, s, (==_iff (starts_from n 0 base size a) 0).0 e)
  | inr e ↦
      let f = starts-Apart n size base chunks a z d (λ t. ground (arith, e, t)) in
      omega (arith, f, starts_from_le-one n 0 base size a z)
]

null-starts_from : (n base size : ℕ) → base ≢ 0 → starts_from n 0 base size 0 ≡ 0
null-starts_from n base size z = elim (Bool-cases (starts_from n 0 base size 0 == 0)) [
  | inl e ↦ (==_iff (starts_from n 0 base size 0) 0).0 e
  | inr e ↦
      let (l, u) = starts_from-inside n 0 base size 0 (λ t. ground (arith, e, t)) in
      absurd (z (omega (arith, l)))
]

grown : (chunks : List ℕ) (base n : ℕ) → length (chunks ++ (base ∷ [])) * n ≡ length chunks * n + n
grown chunks base n =
    let e : length (chunks ++ (base ∷ [])) ≡ suc (length chunks) =
      omega (arith, length-append chunks (base ∷ [])) in
    ap (λ k. k * n) e ∙ suc-mul (length chunks) n

pub chunk-Valid :
    (p : FixedBlockPool) (held : List ℕ) (base : ℕ)
    → Fresh (some base) p
    → p.free_list ≡ 0
    → Valid p held
    → Valid (allocate_chunk_unlocked base p) held
unfolding allocate_chunk_unlocked
chunk-Valid p held base (z, apart) e v =
    let n = p.blocks_per_chunk in
    let size = p.block_size in
    let single : (a : ℕ) → starts_from n 0 base size a + starts n size p.chunks a ≤ 1 =
      λ a. chunk-single n size base a p.chunks v.sized apart (v.single a) in
    let (free', c, l, o) =
      link_blocks-Chain n 0 base size p.free_list p.memory v.free z
        (λ a. omega (arith, single a, v.parts a)) v.chain in
    record {
      free = free';
      chain = c;
      parts = λ a. omega (arith, o a, v.parts a, starts-append n size base a p.chunks);
      single = λ a. omega (arith, single a, starts-append n size base a p.chunks);
      total = omega (arith, l, v.total, grown p.chunks base n);
      count = v.count;
      sized = v.sized;
      null =
          omega
            (arith, v.null, null-starts_from n base size z, starts-append n size base 0 p.chunks);
    }

deallocate-inside :
    (p : FixedBlockPool) (a : ℕ)
    → a ≢ 0
    → in_chunks a (p.block_size * p.blocks_per_chunk) p.chunks ≡ true
    → deallocate a p ≡ record p {
      memory = store p.memory a p.free_list;
      free_list = a;
      allocated_count = (p.allocated_count + (2 ^ 64 - 1)) % 2 ^ 64;
    }
unfolding deallocate
deallocate-inside p a z i = let nz : (a == 0) ≡ false = ground (arith, z) in rw (nz, i) refl

pub deallocate-Valid :
    (p : FixedBlockPool) (held : List ℕ) (a : ℕ)
    → occurrences a held ≢ 0
    → Valid p held
    → Valid (deallocate a p) (without a held)
deallocate-Valid p held a h v =
    let n = p.blocks_per_chunk in
    let (o, l) = occurrences-without a held h in
    let inside =
      starts-in_chunks n p.block_size p.chunks a v.sized (λ t. h (omega (arith, v.parts a, t))) in
    let z : a ≢ 0 = λ e. h (rw e (omega (arith, v.parts 0, v.null))) in
    let alone : occurrences a v.free ≡ 0 = omega (arith, h, v.parts a, v.single a) in
    rw (deallocate-inside p a z inside) (record {
      free = a ∷ v.free;
      chain = store-front p.memory a p.free_list v.free z alone v.chain;
      parts = λ b. omega (arith, o b, v.parts b);
      single = v.single;
      total = omega (arith, l, v.total);
      count = omega (arith, l, v.count);
      sized = v.sized;
      null = v.null;
    })

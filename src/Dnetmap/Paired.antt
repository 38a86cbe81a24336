-- ===== src/Dnetmap/Paired.antt =====
-- The pairing of the two hash lists of DNETMAP (extensions/xt_DNETMAP.c), and that the list
-- operations of a packet keep it.
pub mod Bind
pub mod Packets
use xtables_addons.Common.{
  ℕ, ◌+◌, ◌≡◌, ◌≢◌, refl, Bool, true, false, not, ◌&&◌, ◌||◌, Option, some, none, List, [], ◌∷◌,
  ◌++◌, ◌==◌, if◌then◌else◌, arith, Bool-cases, inl, inr,
}
use xtables_addons.Common.Members.{elem, remove, elem-remove, elem-snoc}
use xtables_addons.Dnetmap.{
  Entry, Prefix, Net, Env, set_at, set_entry, set_prefix, dnetmap_entry_hash, unhashed, rehashed,
  off_lists, move_tail, first_postnat, dnetmap_entry_rlookup,
}

-- The entry stands in its prefix.
abbrev pub ours : Net → ℕ → Bool
ours s x = elem x (s.prefix_at (s.entry x).prefix).elist

-- No two entries have one postnat address, an entry on a list by its prenat address is on the list
-- for its postnat address, and all lists hold entries of the prefixes.
pub record IsPaired (env : Env) (s : Net) : Type 0 where
  pub one_entry :
      (x y : ℕ)
      → ours s x ≡ true
      → ours s y ≡ true
      → (s.entry x).postnat_addr ≡ (s.entry y).postnat_addr
      → x ≡ y
  pub reversed :
      (x h : ℕ)
      → elem x (s.iphash h) ≡ true
      → elem x (s.rev_iphash (dnetmap_entry_hash env (s.entry x).postnat_addr)) ≡ true
  pub rev_ours : (x h : ℕ) → elem x (s.rev_iphash h) ≡ true → ours s x ≡ true
  pub lru_ours : (x p : ℕ) → elem x (s.prefix_at p).lru_list ≡ true → ours s x ≡ true

module _ (env : Env) (s : Net) (e : ℕ) (w : IsPaired env s) where
  -- A change of an entry that keeps its address and its prefix.
  pub set_entry-IsPaired :
      (b : Entry)
      → b.postnat_addr ≡ (s.entry e).postnat_addr
      → b.prefix ≡ (s.entry e).prefix
      → IsPaired env (set_entry e b s)
  set_entry-IsPaired b same_addr same_prefix = record {
    one_entry = λ x y p q h. ground (arith, w.one_entry x y);
    reversed = λ x h m. ground (arith, w.reversed x h);
    rev_ours = λ x h m. ground (arith, w.rev_ours x h);
    lru_ours = λ x p m. ground (arith, w.lru_ours x p);
  }

  -- A change of a prefix that keeps its entries and adds none to its lru list.
  pub set_prefix-IsPaired :
      (p : ℕ) (b : Prefix)
      → b.elist ≡ (s.prefix_at p).elist
      → ((x : ℕ) → elem x b.lru_list ≡ true → ours s x ≡ true)
      → IsPaired env (set_prefix p b s)
  set_prefix-IsPaired p b same within = record {
    one_entry = λ x y h k same_addr. ground (arith, w.one_entry x y);
    reversed = λ x h m. w.reversed x h m;
    rev_ours = λ x h m. ground (arith, w.rev_ours x h);
    lru_ours = λ x q m. ground (arith, w.lru_ours x q, within x);
  }

  pub unhashed-IsPaired : IsPaired env (unhashed e s)
  unhashed-IsPaired = record {
    one_entry = λ x y h k same_addr. ground (arith, w.one_entry x y);
    reversed = λ x h m. ground (
      arith,
      elem-remove x e (s.iphash h),
      elem-remove x e (s.rev_iphash (dnetmap_entry_hash env (s.entry x).postnat_addr)),
      w.reversed x h,
    );
    rev_ours = λ x h m. ground (arith, elem-remove x e (s.rev_iphash h), w.rev_ours x h);
    lru_ours = λ x p m. ground (arith, w.lru_ours x p);
  }

  pub rehashed-IsPaired : ours s e ≡ true → IsPaired env (rehashed env e s)
  rehashed-IsPaired mine = record {
    one_entry = λ x y h k same_addr. ground (arith, w.one_entry x y);
    reversed = λ x h m. ground (
      arith,
      elem-snoc x e (s.iphash h),
      elem-snoc x e (s.rev_iphash (dnetmap_entry_hash env (s.entry x).postnat_addr)),
      w.reversed x h,
    );
    rev_ours = λ x h m. ground (arith, elem-snoc x e (s.rev_iphash h), w.rev_ours x h);
    lru_ours = λ x p m. ground (arith, w.lru_ours x p);
  }

  pub move_tail-IsPaired : (p : ℕ) → ours s e ≡ true → IsPaired env (move_tail e p s)
  move_tail-IsPaired p mine = record {
    one_entry = λ x y h k same_addr. ground (arith, w.one_entry x y);
    reversed = λ x h m. w.reversed x h m;
    rev_ours = λ x h m. ground (arith, w.rev_ours x h);
    lru_ours = λ x q m. ground (
      arith,
      elem-snoc x e (remove e (s.prefix_at p).lru_list),
      elem-remove x e (s.prefix_at q).lru_list,
      elem-remove x e (s.prefix_at p).lru_list,
      w.lru_ours x q,
    );
  }

  pub off_lists-IsPaired : IsPaired env (off_lists e s)
  off_lists-IsPaired = record {
    one_entry = λ x y h k same_addr. ground (arith, w.one_entry x y);
    reversed = λ x h m. w.reversed x h m;
    rev_ours = λ x h m. ground (arith, w.rev_ours x h);
    lru_ours = λ x q m. ground (arith, elem-remove x e (s.prefix_at q).lru_list, w.lru_ours x q);
  }

-- The walk for an address finds the one entry on the list that has it.
first_postnat_only :
    (entry : ℕ → Entry) (e : ℕ) (l : List ℕ)
    → elem e l ≡ true
    → ((x : ℕ) → elem x l ≡ true → (entry x).postnat_addr ≡ (entry e).postnat_addr → x ≡ e)
    → first_postnat entry (entry e).postnat_addr l ≡ some e
unfolding elem first_postnat
first_postnat_only entry e [] m only = absurd (ground arith)
first_postnat_only entry e (x ∷ l) m only = ground (
  arith,
  only x,
  first_postnat_only entry e l,
  λ (y : ℕ) (k : elem y l ≡ true). only y (ground arith),
)

pub rlookup_paired :
    (env : Env) (s : Net) (e : ℕ)
    → IsPaired env s
    → elem e (s.rev_iphash (dnetmap_entry_hash env (s.entry e).postnat_addr)) ≡ true
    → dnetmap_entry_rlookup env s (s.entry e).postnat_addr ≡ some e
unfolding dnetmap_entry_rlookup
rlookup_paired env s e w m =
    let h = dnetmap_entry_hash env (s.entry e).postnat_addr in
    first_postnat_only s.entry e (s.rev_iphash h) m
      λ x k same. w.one_entry x e (w.rev_ours x h k) (w.rev_ours e h m) same

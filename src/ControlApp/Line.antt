-- ===== src/ControlApp/Line.antt =====
-- The places of the callers in a queue of control-app/src/queue.ts, as others join and leave.
use telroi_ai_app.Base.{
  ◌++◌, ℕ, zero, suc, ◌-◌, String, ◌≡◌, refl, sym, ◌∙◌, subst, inl, inr, false, List, [], ◌∷◌,
  eq_iff, Bool-cases, arith, ◌==◌, ltb, if◌then◌else◌,
}
use telroi_ai_app.ControlApp.Queue.{behind, remove_first, position_in, QueuedCaller}

-- Who leaves from ahead moves a caller up by one; who leaves from behind does not move it.
abbrev pub moved_up : ℕ → ℕ → ℕ
moved_up zero place = place
moved_up (suc gone) place = if ltb (suc gone) place then place - 1 else place

up_head : (p : ℕ) → p ≡ moved_up 1 (behind p)
up_head zero = refl
up_head (suc n) = ground arith

up_first : (p : ℕ) → 1 ≡ moved_up (behind p) 1
up_first zero = refl
up_first (suc n) = ground arith

up_behind : (p q : ℕ) → behind (moved_up p q) ≡ moved_up (behind p) (behind q)
up_behind zero q = refl
up_behind (suc p) zero = ground arith
up_behind (suc p) (suc q) = ground arith

-- When the caller of a channel leaves, each other caller who stood behind it moves up by exactly one
-- place, and each one ahead of it stays.
pub position-remove :
    (left other : String) (cs : List QueuedCaller)
    → left == other ≡ false
    → position_in other (remove_first left cs)
      ≡ moved_up (position_in left cs) (position_in other cs)
position-remove left other [] apart = refl
position-remove left other (c ∷ cs) apart = elim (Bool-cases (c.channel_id == left)) [
  | inl gone ↦
      let stays : c.channel_id == other ≡ false =
        subst (λ x. x == other ≡ false) (sym ((eq_iff c.channel_id left).0 gone)) apart in
      rw (gone, stays) (up_head (position_in other cs))
  | inr kept ↦ elim (Bool-cases (c.channel_id == other)) [
    | inl here ↦ rw (kept, here) (up_first (position_in left cs))
    | inr further ↦
        rw (kept, further, position-remove left other cs apart)
          (up_behind (position_in left cs) (position_in other cs))
  ]
]

-- Who joins does not change the place of anybody who waits already.
pub position-append :
    (channel_id : String) (c : QueuedCaller) (cs : List QueuedCaller) (n : ℕ)
    → position_in channel_id cs ≡ suc n
    → position_in channel_id (cs ++ (c ∷ [])) ≡ suc n
position-append channel_id c [] n h = absurd (ground (arith, h))
position-append channel_id c (d ∷ cs) n h = elim (Bool-cases (d.channel_id == channel_id)) [
  | inl here ↦ rw here (rw here at h)
  | inr further ↦
      let later : behind (position_in channel_id cs) ≡ suc n = rw further at h in
      rw further (ground (arith, later, position-append channel_id c cs (n - 1)))
]

-- Two callers who are both at the front are on the same channel.
pub front_is_one :
    (a b : String) (cs : List QueuedCaller) → position_in a cs ≡ 1 → position_in b cs ≡ 1 → a ≡ b
front_is_one a b [] h k = absurd (ground (arith, h))
front_is_one a b (c ∷ cs) h k = sym (at_head a c cs h) ∙ at_head b c cs k
  where
    at_head :
        (x : String) (d : QueuedCaller) (ds : List QueuedCaller)
        → position_in x (d ∷ ds) ≡ 1
        → d.channel_id ≡ x
    at_head x d ds e = elim (Bool-cases (d.channel_id == x)) [
      | inl here ↦ (eq_iff d.channel_id x).0 here
      | inr further ↦
          let late : behind (position_in x ds) ≡ 1 = rw further at e in
          absurd (ground (arith, late))
    ]

-- ===== src/Accept/Fits.antt =====
-- What is true of each client thread, in terms of what the accept loop is doing.
use dpitunnel_cli.Prelude.{
  ℕ, ◌≡◌, ◌≢◌, ◌∙◌, refl, sym, subst, ◌⊎◌, inl, inr, Bool, true, false, false≢true, Bool-cases,
  ==_iff, ◌==◌,
}
use dpitunnel_cli.Accept.{
  Stage, unborn, waiting, serving, served, locking, erasing, detached, unlocking, ending, exited,
}
use dpitunnel_cli.Accept.{Phase, testing, polling, joining, returned, broken, created, published}
use dpitunnel_cli.Accept.{System}

-- The accept loop is not starting this thread.
abbrev pub Apart : Phase → ℕ → Type 0
Apart (created k) id = k ≢ id
Apart (published k) id = k ≢ id
Apart _ id = Unit

-- It is, and the thread is in the map from the one step to the other.
abbrev pub Starting : Phase → ℕ → Bool → Type 0
Starting (created k) id m = (k ≡ id) × (m ≡ false)
Starting (published k) id m = (k ≡ id) × (m ≡ true)
Starting _ id m = ⊥

abbrev pub Live : Phase → ℕ → Bool → Bool → Type 0
Live ph id m j = (m ≡ true) × (j ≡ false) × Apart ph id × (ph ≢ returned)

-- What is true of one thread: the phase of the accept loop, its stage, and whether it is mapped and joined.
abbrev pub Fits : Phase → ℕ → Stage → Bool → Bool → Type 0
Fits ph id unborn m j = (m ≡ false) × (j ≡ false) × Apart ph id
Fits ph id waiting m j = (j ≡ false) × Starting ph id m
Fits ph id serving m j = Live ph id m j
Fits ph id served m j = Live ph id m j
Fits ph id locking m j = Live ph id m j
Fits ph id erasing m j = Live ph id m j
Fits ph id detached m j = (m ≡ true) × (j ≡ false) × Apart ph id
Fits ph id unlocking m j = (j ≡ false) × Apart ph id × (ph ≡ returned → m ≡ false)
Fits ph id ending m j = (j ≡ false) × Apart ph id × (ph ≡ returned → m ≡ false)
Fits ph id exited m j =
    Apart ph id × (m ≡ false → j ≡ false) × (ph ≡ returned → m ≡ true → j ≡ true)

abbrev pub IsFitting : System → Type 0
IsFitting s = (id : ℕ) → Fits s.phase id (s.stage id) (s.mapped id) (s.joined id)

Starting-Apart : (ph : Phase) (id : ℕ) (m : Bool) → Starting ph id m → Apart ph id → ⊥
Starting-Apart testing id m h a = elim h [ ]
Starting-Apart polling id m h a = elim h [ ]
Starting-Apart joining id m h a = elim h [ ]
Starting-Apart returned id m h a = elim h [ ]
Starting-Apart broken id m h a = elim h [ ]
Starting-Apart (created k) id m h a = a h.0
Starting-Apart (published k) id m h a = a h.0

-- The phase changes, away from this thread.
pub Fits-moves :
    (ph ph' : Phase) (id : ℕ) (st : Stage) (m j : Bool)
    → Apart ph id
    → Apart ph' id
    → ph' ≢ returned
    → Fits ph id st m j
    → Fits ph' id st m j
Fits-moves ph ph' id unborn m j a a' r h = (h.0, h.1, a')
Fits-moves ph ph' id waiting m j a a' r h = absurd (Starting-Apart ph id m h.1 a)
Fits-moves ph ph' id serving m j a a' r h = (h.0, h.1, a', r)
Fits-moves ph ph' id served m j a a' r h = (h.0, h.1, a', r)
Fits-moves ph ph' id locking m j a a' r h = (h.0, h.1, a', r)
Fits-moves ph ph' id erasing m j a a' r h = (h.0, h.1, a', r)
Fits-moves ph ph' id detached m j a a' r h = (h.0, h.1, a')
Fits-moves ph ph' id unlocking m j a a' r h = (h.0, a', λ q. absurd (r q))
Fits-moves ph ph' id ending m j a a' r h = (h.0, a', λ q. absurd (r q))
Fits-moves ph ph' id exited m j a a' r h = (a', h.1, λ q. absurd (r q))

-- A value that depends on whether the number is the one that is updated.
pub update_cases :
    (P : Bool → Type 0) (i id : ℕ) → (i ≡ id → P true) → (i ≢ id → P false) → P (i == id)
update_cases P i id same other = elim (Bool-cases (i == id)) [
  | inl e ↦ subst P (sym e) (same ((==_iff i id).0 e))
  | inr e ↦ subst P (sym e) (other (λ q. false≢true (sym e ∙ (==_iff i id).1 q)))
]

pub created≢returned : (id : ℕ) → created id ≢ returned
created≢returned id e = cc

pub Fits-waiting :
    (id : ℕ) (st : Stage) (m j : Bool)
    → Fits (created id) id st m j
    → (st ≡ waiting) × (j ≡ false) × (m ≡ false)
Fits-waiting id unborn m j f = absurd (f.2 refl)
Fits-waiting id waiting m j f = (refl, f.0, f.1.1)
Fits-waiting id serving m j f = absurd (f.2 refl)
Fits-waiting id served m j f = absurd (f.2 refl)
Fits-waiting id locking m j f = absurd (f.2 refl)
Fits-waiting id erasing m j f = absurd (f.2 refl)
Fits-waiting id detached m j f = absurd (f.2 refl)
Fits-waiting id unlocking m j f = absurd (f.1 refl)
Fits-waiting id ending m j f = absurd (f.1 refl)
Fits-waiting id exited m j f = absurd (f.0 refl)

pub Fits-released :
    (id : ℕ) (st : Stage) (m j : Bool) → Fits (published id) id st m j → (j ≡ false) × (m ≡ true)
Fits-released id unborn m j f = absurd (f.2 refl)
Fits-released id waiting m j f = (f.0, f.1.1)
Fits-released id serving m j f = absurd (f.2 refl)
Fits-released id served m j f = absurd (f.2 refl)
Fits-released id locking m j f = absurd (f.2 refl)
Fits-released id erasing m j f = absurd (f.2 refl)
Fits-released id detached m j f = absurd (f.2 refl)
Fits-released id unlocking m j f = absurd (f.1 refl)
Fits-released id ending m j f = absurd (f.1 refl)
Fits-released id exited m j f = absurd (f.0 refl)

exited≢detached : exited ≢ detached
exited≢detached e = cc

joins-all :
    (m j : Bool) (st : Stage)
    → (m ≡ true → (j ≡ true) ⊎ (st ≡ detached))
    → m ≡ true
    → j ≡ false
    → st ≢ detached
    → ⊥
joins-all m j st all e f n = elim (all e) [ inl q ↦ false≢true (sym f ∙ q) | inr q ↦ n q ]

not-mapped : (m : Bool) → (m ≡ true → ⊥) → m ≡ false
not-mapped false n = refl
not-mapped true n = absurd (n refl)

-- The last loop is over: it has joined the threads of the map, or passed over them.
pub Fits-returned :
    (id : ℕ) (st : Stage) (m j : Bool)
    → (m ≡ true → (j ≡ true) ⊎ (st ≡ detached))
    → Fits joining id st m j
    → Fits returned id st m j
Fits-returned id unborn m j all f = f
Fits-returned id waiting m j all f = absurd f.1
Fits-returned id serving m j all f = absurd (joins-all m j serving all f.0 f.1 (λ e. cc))
Fits-returned id served m j all f = absurd (joins-all m j served all f.0 f.1 (λ e. cc))
Fits-returned id locking m j all f = absurd (joins-all m j locking all f.0 f.1 (λ e. cc))
Fits-returned id erasing m j all f = absurd (joins-all m j erasing all f.0 f.1 (λ e. cc))
Fits-returned id detached m j all f = f
Fits-returned id unlocking m j all f =
    (f.0, tt, λ _. not-mapped m (λ e. joins-all m j unlocking all e f.0 (λ q. cc)))
Fits-returned id ending m j all f =
    (f.0, tt, λ _. not-mapped m (λ e. joins-all m j ending all e f.0 (λ q. cc)))
Fits-returned id exited m j all f =
    (tt, f.1, λ _ e. elim (all e) [ inl q ↦ q | inr q ↦ absurd (exited≢detached q) ])

-- A thread that is done with the map.
abbrev pub Leaves : Stage → Type 0
Leaves st = (st ≡ unlocking) ⊎ (st ≡ ending)

-- A thread that still runs serves no client and is past the mutex; it has taken itself off the loop.
pub Fits-gone :
    (id : ℕ) (st : Stage) (m j : Bool)
    → Fits returned id st m j
    → (st ≡ unborn) ⊎ (st ≡ exited) ⊎ (st ≡ detached) ⊎ (Leaves st × (m ≡ false))
Fits-gone id unborn m j f = inl refl
Fits-gone id waiting m j f = elim f.1 [ ]
Fits-gone id serving m j f = absurd (f.3 refl)
Fits-gone id served m j f = absurd (f.3 refl)
Fits-gone id locking m j f = absurd (f.3 refl)
Fits-gone id erasing m j f = absurd (f.3 refl)
Fits-gone id detached m j f = inr (inr (inl refl))
Fits-gone id unlocking m j f = inr (inr (inr (inl refl, f.2 refl)))
Fits-gone id ending m j f = inr (inr (inr (inr refl, f.2 refl)))
Fits-gone id exited m j f = inr (inl refl)

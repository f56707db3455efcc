-- ===== src/Rib/ChangeLog/Window.antt =====
-- The change log holds the latest changes, in the order of their versions.
use ari.Base.{
  ℕ, ◌+◌, ◌-◌, ◌≤◌, ◌<◌, ◌≡◌, refl, ap, ◌∙◌, inl, inr, true, false, Option, none, some, List, [],
  ◌∷◌, ◌++◌, arith, ltb, leb, if◌then◌else◌, ltb→lt, le→ltb_false, Bool-cases, u64_mod, inc64,
  length, back, length-snoc, back-snoc, nat_key, string_key,
}
use ari.Rib.Value.{RibChange, version}
use ari.Rib.ChangeLog.{
  ChangeLog, drop_front, make_room, log_change, newer, current_version, version_or_zero,
  update_version_marker, sync_marker, reached,
}

-- The versions rise, from `lo` at least to `hi` at most.
abbrev pub Span : ℕ → List RibChange → ℕ → Type 0
Span lo [] hi = lo ≤ hi + 1
Span lo (c ∷ cs) hi = (lo ≤ version c) × Span (version c + 1) cs hi

pub Span-le : (lo : ℕ) (cs : List RibChange) (hi : ℕ) → Span lo cs hi → lo ≤ hi + 1
Span-le lo [] hi s = s
Span-le lo (c ∷ cs) hi s = omega (arith, Span-le (version c + 1) cs hi s.1)

pub Span-snoc :
    (lo : ℕ) (cs : List RibChange) (hi : ℕ) (c : RibChange)
    → Span lo cs hi
    → hi < version c
    → Span lo (cs ++ c ∷ []) (version c)
Span-snoc lo [] hi c s h = omega arith
Span-snoc lo (d ∷ cs) hi c s h = (s.0, Span-snoc (version d + 1) cs hi c s.1 h)

-- Nothing is newer than the last version.
pub newer_none : (lo : ℕ) (cs : List RibChange) (hi : ℕ) → Span lo cs hi → newer hi cs ≡ []
unfolding newer
newer_none lo [] hi s = refl
newer_none lo (c ∷ cs) hi s =
    let below : version c + 1 ≤ hi + 1 = Span-le (version c + 1) cs hi s.1 in
    ground (arith, newer_none (version c + 1) cs hi s.1)

pub newer-snoc :
    (since : ℕ) (cs : List RibChange) (c : RibChange)
    → since < version c
    → newer since (cs ++ c ∷ []) ≡ newer since cs ++ c ∷ []
unfolding newer
newer-snoc since [] c h = ground arith
newer-snoc since (d ∷ cs) c h = ground (arith, newer-snoc since cs c h)

abbrev pub Within : ChangeLog → ℕ → Type 0
Within l hi = Span l.oldest_version l.changes hi

drop_front-Within :
    (l : ChangeLog) (cs : List RibChange) (hi : ℕ)
    → hi + 1 < u64_mod
    → l.changes ≡ cs
    → Within l hi
    → Within (drop_front l cs) hi
unfolding drop_front
drop_front-Within l [] hi room e s = s
drop_front-Within l (c ∷ cs) hi room e s =
    let s' : Span l.oldest_version (c ∷ cs) hi = rw e at s in
    let below : version c + 1 ≤ hi + 1 = Span-le (version c + 1) cs hi s'.1 in
    let exact : inc64 (version c) ≡ version c + 1 = omega arith in rw exact s'.1

-- The oldest change is dropped only when its version is at most the one asked for, or the log
-- then says that it is too old.
drop_front-newer :
    (l : ChangeLog) (cs : List RibChange) (hi since : ℕ)
    → hi + 1 < u64_mod
    → l.changes ≡ cs
    → Within l hi
    → (drop_front l cs).oldest_version ≤ since
    → (l.oldest_version ≤ since) × (newer since (drop_front l cs).changes ≡ newer since l.changes)
unfolding drop_front newer
drop_front-newer l [] hi since room e s h = (h, refl)
drop_front-newer l (c ∷ cs) hi since room e s h =
    let s' : Span l.oldest_version (c ∷ cs) hi = rw e at s in
    let below : version c + 1 ≤ hi + 1 = Span-le (version c + 1) cs hi s'.1 in
    let old : version c < since = omega arith in
    (omega arith, rw e (rw (le→ltb_false since (version c) (omega arith))))

pub make_room-Within :
    (l : ChangeLog) (hi : ℕ) → hi + 1 < u64_mod → Within l hi → Within (make_room l) hi
unfolding make_room
make_room-Within l hi room s = elim (Bool-cases (leb l.max_size (length l.changes))) [
  | inl full ↦ rw full (drop_front-Within l l.changes hi room refl s)
  | inr spare ↦ rw spare s
]

make_room-newer :
    (l : ChangeLog) (hi since : ℕ)
    → hi + 1 < u64_mod
    → Within l hi
    → (make_room l).oldest_version ≤ since
    → (l.oldest_version ≤ since) × (newer since (make_room l).changes ≡ newer since l.changes)
unfolding make_room
make_room-newer l hi since room s h = elim (Bool-cases (leb l.max_size (length l.changes))) [
  | inl full ↦ rw full (drop_front-newer l l.changes hi since room refl s (rw full at h))
  | inr spare ↦ rw spare ((rw spare at h), refl)
]

pub log_change-Within :
    (l : ChangeLog) (c : RibChange) (hi : ℕ)
    → hi + 1 < u64_mod
    → Within l hi
    → hi < version c
    → Within (log_change l c) (version c)
unfolding log_change
log_change-Within l c hi room s h =
    Span-snoc _ (make_room l).changes hi c (make_room-Within l hi room s) h

-- What the log still answers after one more change is what it answered before, and the change.
pub log_change-newer :
    (l : ChangeLog) (c : RibChange) (hi since : ℕ)
    → hi + 1 < u64_mod
    → Within l hi
    → since ≤ hi
    → hi < version c
    → (log_change l c).oldest_version ≤ since
    → (l.oldest_version ≤ since)
      × (newer since (log_change l c).changes ≡ newer since l.changes ++ c ∷ [])
unfolding log_change
log_change-newer l c hi since room s le lt h =
    let (old, same) = make_room-newer l hi since room s h in
    (old, newer-snoc since (make_room l).changes c (omega arith) ∙ ap (λ cs. cs ++ c ∷ []) same)

-- The latest change is the last one that was logged.
pub current_version-log_change :
    (l : ChangeLog) (c : RibChange) → current_version (log_change l c) ≡ version c
unfolding current_version log_change
current_version-log_change l c = rw back-snoc

length-drop_front :
    (l : ChangeLog) (cs : List RibChange)
    → l.changes ≡ cs
    → length (drop_front l cs).changes ≡ length cs - 1
unfolding drop_front
length-drop_front l [] e = rw e (omega arith)
length-drop_front l (c ∷ cs) e = omega arith

drop_front_size : (l : ChangeLog) (cs : List RibChange) → (drop_front l cs).max_size ≡ l.max_size
unfolding drop_front
drop_front_size l [] = refl
drop_front_size l (c ∷ cs) = refl

length-make_room :
    (l : ChangeLog)
    → 0 < l.max_size
    → length l.changes ≤ l.max_size
    → (length (make_room l).changes + 1 ≤ l.max_size) × ((make_room l).max_size ≡ l.max_size)
unfolding make_room
length-make_room l pos fits = elim (Bool-cases (leb l.max_size (length l.changes))) [
  | inl full ↦
      rw full (omega (arith, length-drop_front l l.changes refl), drop_front_size l l.changes)
  | inr spare ↦ rw spare (ground arith, refl)
]

-- A log with room for one change never grows past its maximum size.
pub log_change_bounded :
    (l : ChangeLog) (c : RibChange)
    → 0 < l.max_size
    → length l.changes ≤ l.max_size
    → (length (log_change l c).changes ≤ l.max_size) × ((log_change l c).max_size ≡ l.max_size)
unfolding log_change
log_change_bounded l c pos fits =
    let (shorter, size) = length-make_room l pos fits in
    (omega (arith, length-snoc (make_room l).changes c), size)

reached_lem : (v : ℕ) (o : Option RibChange) → 0 < v → reached v o ≡ leb v (version_or_zero o)
reached_lem v none h = ground arith
reached_lem v (some c) h = refl

-- A marker is logged just when its version is new.
pub update_version_marker-Within :
    (l : ChangeLog) (v now hi : ℕ)
    → hi + 1 < u64_mod
    → Within l hi
    → current_version l ≡ hi
    → 0 < v
    → Within (update_version_marker l v now) (if ltb hi v then v else hi)
      × (current_version (update_version_marker l v now) ≡ (if ltb hi v then v else hi))
unfolding update_version_marker current_version
update_version_marker-Within l v now hi room s cur pos =
    let test : reached v (back l.changes) ≡ leb v hi =
      reached_lem v (back l.changes) pos ∙ ap (leb v) cur in
    elim (Bool-cases (ltb hi v)) [
      | inl above ↦
          let open_log : leb v hi ≡ false = ground arith in
          rw (test, open_log, above)
            (log_change-Within l (sync_marker v now) hi room s (ltb→lt hi v above), rw back-snoc)
      | inr reach ↦ let shut : leb v hi ≡ true = ground arith in rw (test, shut, reach) (s, cur)
    ]

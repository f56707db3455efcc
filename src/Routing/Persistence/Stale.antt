-- ===== src/Routing/Persistence/Stale.antt =====
-- Routes that were removed stay in the snapshot file.
use ari.Base.{
  ℕ, ◌≡◌, refl, ap, ◌∙◌, inl, inr, Option, none, List, [], ◌∷◌, arith, Bool-cases, All, nat_key,
  string_key,
}
use ari.Routing.{RouteResolver}
use ari.Routing.Persistence.{
  SnapshotFile, Tick, kept_or_written, save_snapshot, snapshot_ticks, start_snapshot_task,
}

-- The resolver of a tick has no route left.
abbrev pub IsEmptied : Tick → Type 0
IsEmptied (r, now, write) = r.metadata_cache ≡ []

save_snapshot_emptied :
    (r : RouteResolver) (now : ℕ) → r.metadata_cache ≡ [] → save_snapshot r now ≡ none
unfolding save_snapshot
save_snapshot_emptied r now gone = elim (Bool-cases r.config.enable_persistence) [
  | inl on ↦ rw on (rw gone refl)
  | inr off ↦ rw off refl
]

snapshot_ticks_emptied :
    (ticks : List Tick) (file : SnapshotFile)
    → All IsEmptied ticks
    → snapshot_ticks ticks file ≡ file
unfolding snapshot_ticks
snapshot_ticks_emptied [] file none_left = refl
snapshot_ticks_emptied ((r, now, write) ∷ ticks) file (gone, more) =
    ap (λ (o : Option _). snapshot_ticks ticks (kept_or_written write file o))
      (save_snapshot_emptied r now gone)
    ∙ snapshot_ticks_emptied ticks file more

-- While the cache is empty, the task leaves the file as it is, with the routes that were there.
start_snapshot_task_emptied :
    (r : RouteResolver) (ticks : List Tick) (file : SnapshotFile)
    → All IsEmptied ticks
    → start_snapshot_task r ticks file ≡ file
unfolding start_snapshot_task
start_snapshot_task_emptied r ticks file gone =
    rw (snapshot_ticks_emptied ticks file gone) (ground arith)

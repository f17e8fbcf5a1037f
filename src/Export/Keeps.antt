-- ===== src/Export/Keeps.antt =====
-- `ExportSelections` overwrites no file.
use cull_snap.Base.{ℕ, ◌+◌, ◌≤◌, List, Option, none, some, length, ◌≡◌, ◌≢◌, ◌⊎◌, All}
use cull_snap.Dedupe.Mover.{File}
use cull_snap.Export.{Media, ExportError, out_of_fuel}
use cull_snap.Export.Single.{Kept, IsCopied}

-- What the loop has done at its end.
abbrev Outcome : ℕ → List File → List Media → ℕ × Option ExportError × List File → Type 0
Outcome count disk photos r =
    Kept disk r.2
    × (((e : ExportError) × (r.1 ≡ some e) × (e ≢ out_of_fuel) × (r.0 ≤ count + length photos))
        ⊎ ((r.1 ≡ none) × (r.0 ≡ count + length photos) × All (λ p. IsCopied disk r.2 p) photos))

-- ===== src/Graph/Paths/Rests.antt =====
-- graph/paths.go: paths to roots read from the object on, and the order of the search by length.
use heaplens.Base.{◌≡◌, refl, ◌∙◌, List, [], ◌∷◌, ◌++◌}
use heaplens.Base.{append_assoc, true, false}
use heaplens.Graph.{ObjId, MemGraph}
use heaplens.Graph.Paths.{contains}
use heaplens.Graph.Paths.Sound.{PointsTo, is_root, Climb, here, up}

-- What leads on from `v`, where `path` has been climbed, to a root.
abbrev pub LeadsOn : MemGraph → List ObjId → ObjId → List ObjId → Type 0
LeadsOn g path v [] = is_root g v ≡ true
LeadsOn g path v (u ∷ rest) =
    (is_root g v ≡ false)
    × PointsTo g u v
    × (contains path u ≡ false)
    × LeadsOn g (path ++ u ∷ []) u rest

-- A climb and what leads on from it, as one from the start.
pub LeadsOn-Climb :
    {g : MemGraph} {from : ObjId} {path : List ObjId} {v : ObjId} (rest : List ObjId)
    → Climb g from path v
    → LeadsOn g path v rest
    → (whole : List ObjId) × (path ++ rest ≡ from ∷ whole) × LeadsOn g (from ∷ []) from whole
LeadsOn-Climb rest here h = (rest, refl, h)
LeadsOn-Climb rest (up {path} {v} u c inner edge new) h =
    let (whole, e, leads) = LeadsOn-Climb (u ∷ rest) c (inner, edge, new, h) in
    (whole, append_assoc path (u ∷ []) rest ∙ e, leads)

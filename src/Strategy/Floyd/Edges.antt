-- ===== src/Strategy/Floyd/Edges.antt =====
-- The table of edges that `floyd` starts from: 1 where two free cells share a side, `inf` elsewhere.
use mathlib.Core.List.{foldl}
use russian_ai_cup.Base.{
  ◌≡◌, refl, ◌∙◌, ◌⊎◌, inl, inr, ℤ, true, List, [], ◌∷◌, Member, here, there, not-Member-nil,
  Bool-cases,
}
use russian_ai_cup.Model.World.{Cells}
use russian_ai_cup.Strategy.Point.{Point, is_correct, has_neigh, neighs}
use russian_ai_cup.Strategy.Point.Neighs.{neighs_iff}
use russian_ai_cup.Strategy.Floyd.{inf, Distances, is_free, free_points, put, put_edge, put_edges}
use russian_ai_cup.Strategy.Floyd.Relax.{put_cases, put_self, foldl-keeps}
use russian_ai_cup.Strategy.Floyd.Board.{free_points_iff}

-- A step of a trooper on the first map: from a free cell of the board to a free cell beside it.
pub record FreeStep (cells : Cells) (size_x size_y : ℤ) (a b : Point) : Type 0 where
  pub on_board : is_correct size_x size_y a ≡ true
  pub from_free : is_free cells a ≡ true
  pub beside : has_neigh size_x size_y a b ≡ true
  pub to_free : is_free cells b ≡ true

-- An invariant of a loop over a list may use that the items are in the list.
pub foldl-keeps_mem {κ} :
    {A S : Type 0} (P : S → Type κ) (f : S → A → S) (xs : List A)
    → ((s : S) (a : A) → Member a xs → P s → P (f s a))
    → (s : S) → P s
    → P (foldl f s xs)
foldl-keeps_mem P f [] keep s h = h
foldl-keeps_mem P f (x ∷ xs) keep s h =
    foldl-keeps_mem P f xs (λ s a m. keep s a (there m)) (f s x) (keep s x here h)

-- What one item of the list achieves stays, if the body keeps it.
pub foldl-reaches :
    {A S : Type 0} (P : S → Type 0) (f : S → A → S)
    → ((s : S) (a : A) → P s → P (f s a))
    → {a : A} → ((s : S) → P (f s a))
    → (xs : List A) (s : S) → Member a xs
    → P (foldl f s xs)
foldl-reaches P f keep hit [] s m = absurd (not-Member-nil m)
foldl-reaches P f keep hit (x ∷ xs) s here = foldl-keeps P f keep xs (f s x) (hit s)
foldl-reaches P f keep hit (x ∷ xs) s (there m) = foldl-reaches P f keep hit xs (f s x) m

module _ (cells : Cells) (size_x size_y : ℤ) where
  abbrev pub E : Point → Point → Type 0
  E = FreeStep cells size_x size_y

  -- Each entry is `inf`, or 1 and a step.
  abbrev pub IsEdges : Distances → Type 0
  IsEdges d = (a b : Point) → (d a b ≡ inf) ⊎ ((d a b ≡ 1) × E a b)

  put_edge-IsEdges :
      (p n : Point) (d : Distances)
      → Member p (free_points cells size_x size_y)
      → Member n (neighs size_x size_y p)
      → IsEdges d
      → IsEdges (put_edge cells p d n)
  unfolding put_edge
  put_edge-IsEdges p n d mp mn h a b = elim (Bool-cases (is_free cells n)) [
    | inl f ↦ rw (put_edge, f) (placed f)
    | inr f ↦ rw (put_edge, f) (h a b)
  ]
    where
      placed : is_free cells n ≡ true → (put d p n 1 a b ≡ inf) ⊎ ((put d p n 1 a b ≡ 1) × E a b)
      placed f = elim (put_cases d p n 1 a b) [
        | inl (ea, eb, e) ↦
            let (correct, free) = (free_points_iff cells p size_x size_y).0 mp in
            inr (
              e,
              rw (ea, eb)
                  (record {
                    on_board = correct;
                    from_free = free;
                    beside = (neighs_iff size_x size_y p n correct).0 mn;
                    to_free = f;
                  }),
            )
        | inr e ↦ rw e (h a b)
      ]

  abbrev pub edges : Distances
  edges = foldl (put_edges cells size_x size_y) (λ _ _. inf) (free_points cells size_x size_y)

  pub edges-IsEdges : IsEdges edges
  unfolding put_edges
  edges-IsEdges =
      foldl-keeps_mem IsEdges (put_edges cells size_x size_y) (free_points cells size_x size_y)
        (λ d p mp.
          foldl-keeps_mem IsEdges (put_edge cells p) (neighs size_x size_y p)
            (λ d n mn. put_edge-IsEdges p n d mp mn) d)
        (λ _ _. inf) (λ a b. inl refl)

  put_edge_keeps :
      (a b p : Point) (d : Distances) (n : Point) → d a b ≡ 1 → put_edge cells p d n a b ≡ 1
  unfolding put_edge
  put_edge_keeps a b p d n h = elim (Bool-cases (is_free cells n)) [
    | inl f ↦ rw (put_edge, f) (elim (put_cases d p n 1 a b) [ inl (_, _, e) ↦ e | inr e ↦ e ∙ h ])
    | inr f ↦ rw (put_edge, f) h
  ]

  put_edge_hit :
      (a b : Point) → is_free cells b ≡ true → (d : Distances) → put_edge cells a d b a b ≡ 1
  unfolding put_edge
  put_edge_hit a b f d = rw (put_edge, f) (put_self d a b 1)

  -- Every step has its entry.
  pub edges_hit : (a b : Point) → E a b → edges a b ≡ 1
  unfolding put_edges
  edges_hit a b e =
      foldl-reaches (λ d. d a b ≡ 1) (put_edges cells size_x size_y)
        (λ d p.
          foldl-keeps (λ d. d a b ≡ 1) (put_edge cells p) (put_edge_keeps a b p)
            (neighs size_x size_y p) d)
        {a = a}
        (λ d.
          foldl-reaches (λ d. d a b ≡ 1) (put_edge cells a) (put_edge_keeps a b a) {a = b}
            (put_edge_hit a b e.to_free) (neighs size_x size_y a) d
            ((neighs_iff size_x size_y a b e.on_board).1 e.beside))
        (free_points cells size_x size_y) (λ _ _. inf)
        ((free_points_iff cells a size_x size_y).1 (e.on_board, e.from_free))

-- ===== src/App/Streaming/Among.antt =====
-- src/app/ViewerWindow.cpp: what stands in `uploadQueue_` or in an uploader's queue.
use scrollviewer.Base.{◌≡◌, refl, ◌⊎◌, inl, inr, List, [], ◌∷◌, ◌++◌}

module _ {A : Type 0} where
  -- The list has the value.
  abbrev pub IsAmong : A → List A → Type 0
  IsAmong a [] = ⊥
  IsAmong a (x ∷ xs) = (x ≡ a) ⊎ IsAmong a xs

  pub IsAmong-append : (a : A) (xs ys : List A) → IsAmong a xs → IsAmong a (xs ++ ys)
  IsAmong-append a [] ys h = absurd h
  IsAmong-append a (x ∷ xs) ys (inl e) = inl e
  IsAmong-append a (x ∷ xs) ys (inr h) = inr (IsAmong-append a xs ys h)

  pub IsAmong_last : (a : A) (xs : List A) → IsAmong a (xs ++ (a ∷ []))
  IsAmong_last a [] = inl refl
  IsAmong_last a (x ∷ xs) = inr (IsAmong_last a xs)

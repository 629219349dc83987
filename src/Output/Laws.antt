-- ===== src/Output/Laws.antt =====
-- Balanced outputs put together.
use cdecl.Prelude.{ℕ, zero, suc, [], ◌∷◌, ◌++◌, some, ◌≡◌, ◌∙◌}
use cdecl.Output.{
  Out, text, number, type_name, kind_name, lang_name, open_paren, close_paren, depth_after,
  Balanced,
}

-- The depth after `o`, and after what follows it.
pub depth_after-++ :
    (d e : ℕ) → (o p : Out) → depth_after d o ≡ some e → depth_after d (o ++ p) ≡ depth_after e p
depth_after-++ d e [] p h = cc
depth_after-++ d e (open_paren ∷ o) p h = depth_after-++ (suc d) e o p h
depth_after-++ zero e (close_paren ∷ o) p h = cc
depth_after-++ (suc d) e (close_paren ∷ o) p h = depth_after-++ d e o p h
depth_after-++ d e (text s ∷ o) p h = depth_after-++ d e o p h
depth_after-++ d e (number n ∷ o) p h = depth_after-++ d e o p h
depth_after-++ d e (type_name t ∷ o) p h = depth_after-++ d e o p h
depth_after-++ d e (kind_name k ∷ o) p h = depth_after-++ d e o p h
depth_after-++ d e (lang_name l ∷ o) p h = depth_after-++ d e o p h

pub ++-Balanced : (o p : Out) → Balanced o → Balanced p → Balanced (o ++ p)
++-Balanced o p h k d = depth_after-++ d d o p (h d) ∙ k d

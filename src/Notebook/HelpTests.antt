-- ===== src/Notebook/HelpTests.antt =====
-- The help on the word at the cursor, at one place, and the theorem there.
use cadabra.Base.{ℕ, [], ◌++◌, ◌≡◌, refl, codes, arith, drop, take, inl}
use cadabra.Notebook.Help.{
  property, isalnum, is_word, kind_at, scan_left, stops, scan_right, help_type_and_topic, LeftWord,
  RightPart, help_type_and_topic-LeftWord,
}

-- The cursor in `x::Depends(y)` behind `De`.
help_type_and_topic-LeftWord_example :
    (l r : ℕ) × ((help_type_and_topic (codes "x::De") (codes "pends(y)") []).1
      ≡ drop l (codes "x::De") ++ take r (codes "pends(y)"))
    × LeftWord (codes "x::De") l
    × RightPart (help_type_and_topic (codes "x::De") (codes "pends(y)") []).0 (codes "pends(y)") r
help_type_and_topic-LeftWord_example =
    help_type_and_topic-LeftWord (codes "x::De") (codes "pends(y)") []
      (inl (λ h. absurd (omega arith)))

run-help_type_and_topic :
    help_type_and_topic (codes "x::De") (codes "pends(y)") [] ≡ (property, codes "Depends")
unfolding help_type_and_topic scan_left scan_right is_word isalnum kind_at stops
run-help_type_and_topic = refl

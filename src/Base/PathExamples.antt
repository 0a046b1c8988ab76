-- ===== src/Base/PathExamples.antt =====
-- The path functions on concrete paths.
use mathlib.Core.Path.{◌≡◌, refl}
use mathlib.Core.List.{[], ◌∷◌}
use choix.Base.Paths.{split, clean, join, dir, base, ext, trim_suffix, up_to_slash}

split-1 : split "a/b.c//" ≡ "a" ∷ "b.c" ∷ "" ∷ "" ∷ []
unfolding split
split-1 = refl

clean-1 : clean "/a/./b//../c/" ≡ "/a/c"
unfolding clean
clean-1 = refl

clean-2 : clean "../x/../../y" ≡ "../../y"
unfolding clean
clean-2 = refl

clean-3 : clean "/.." ≡ "/"
unfolding clean
clean-3 = refl

clean-4 : clean "" ≡ "."
unfolding clean
clean-4 = refl

join-1 : join "picks" "2024/a.jpg" ≡ "picks/2024/a.jpg"
unfolding join
join-1 = refl

dir-1 : dir "picks/2024/a.jpg" ≡ "picks/2024"
unfolding up_to_slash clean
dir-1 = refl

base-1 : base "picks/2024/a.tar.gz" ≡ "a.tar.gz"
unfolding base
base-1 = refl

ext-1 : ext "picks/20.24/a.tar.gz" ≡ ".gz"
unfolding ext
ext-1 = refl

ext-2 : ext "picks/20.24/a" ≡ ""
unfolding ext
ext-2 = refl

trim_suffix-1 : trim_suffix "a.tar.gz" ".gz" ≡ "a.tar"
unfolding trim_suffix
trim_suffix-1 = refl

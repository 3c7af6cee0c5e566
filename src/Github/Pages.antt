-- ===== src/Github/Pages.antt =====
-- The pages of a listing, as the requests for them are answered in turn: each has its items and says
-- whether a page follows, and the request for any of them may fail.
use Prim.Native.Nat.{ℕ, zero, suc}
use mathlib.Core.List.{List, ◌++◌}
use gcit.Base.Results.{Result, ok, err, map_ok}
use gcit.Github.Errors.{GithubErrorKind}

pub data Pages (A : Type 0) : Type 0 where
  failed : GithubErrorKind → Pages A
  last : List A → Pages A
  more : List A → Pages A → Pages A

-- The items of the first page and of as many more as are allowed, where no request fails: what a loop
-- over the pages has to go by.
unfoldable pub read : {A : Type 0} → ℕ → Pages A → Result GithubErrorKind (List A)
read left (failed e) = err e
read left (last items) = ok items
read zero (more items rest) = ok items
read (suc left) (more items rest) = map_ok (λ others. items ++ others) (read left rest)

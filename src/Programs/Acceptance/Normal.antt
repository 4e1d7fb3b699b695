-- ===== src/Programs/Acceptance/Normal.antt =====
-- `_norm` on versions that hold at most one separator.
use par.Prelude.{String}
use par.Programs.Acceptance.Versions.{Stage, alpha, beta, rc, dev, post}

-- What is left of a separator after its hyphen.
abbrev word : Stage → String
word alpha = "alpha."
word beta = "beta."
word rc = "rc."
word dev = "dev."
word post = "post."

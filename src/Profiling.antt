-- ===== src/Profiling.antt =====
-- profiling/profiling.go: the profile types that PyroscopeTypes asks for.
use windowframe.Prelude.{
  ◌≡◌, refl, Bool, true, false, List, [], ◌∷◌, ◌++◌, ◌||◌, if◌then◌else◌, arith,
}

pub record Profilers : Type 0 where
  pub cpu : Bool
  pub alloc_objects : Bool
  pub alloc_space : Bool
  pub inuse_objects : Bool
  pub inuse_space : Bool
  pub goroutines : Bool
  pub block_count : Bool
  pub block_duration : Bool
  pub mutex_count : Bool
  pub mutex_duration : Bool

-- pyroscope.ProfileType
pub data ProfileType : Type 0 where
  profile_cpu profile_alloc_objects profile_alloc_space profile_inuse_objects profile_inuse_space :
      ProfileType
  profile_goroutines profile_block_count profile_block_duration : ProfileType
  profile_mutex_count profile_mutex_duration : ProfileType

-- `if b { out = append(out, t) }`
abbrev appended : Bool → ProfileType → List ProfileType → List ProfileType
appended b t out = if b then out ++ t ∷ [] else out

unfoldable pyroscope_types : Profilers → List ProfileType
pyroscope_types p =
    let out1 = appended p.cpu profile_cpu [] in
    let out2 = appended p.alloc_objects profile_alloc_objects out1 in
    let out3 = appended p.alloc_space profile_inuse_space out2 in
    let out4 = appended p.inuse_objects profile_inuse_objects out3 in
    let out5 = appended p.inuse_space profile_inuse_space out4 in
    let out6 = appended p.goroutines profile_goroutines out5 in
    let out7 = appended p.block_count profile_block_count out6 in
    let out8 = appended p.block_duration profile_block_duration out7 in
    let out9 = appended p.mutex_count profile_mutex_count out8 in
    appended p.mutex_duration profile_mutex_duration out9

abbrev is_alloc_space : ProfileType → Bool
is_alloc_space profile_alloc_space = true
is_alloc_space t = false

abbrev has_alloc_space : List ProfileType → Bool
has_alloc_space [] = false
has_alloc_space (t ∷ ts) = is_alloc_space t || has_alloc_space ts

record LacksAllocSpace (ts : List ProfileType) : Type 0 where
  lacks : has_alloc_space ts ≡ false

keeps :
    {out : List ProfileType} (b : Bool) (t : ProfileType)
    → is_alloc_space t ≡ false
    → LacksAllocSpace out
    → LacksAllocSpace (appended b t out)
keeps {out} true t h l = record { lacks = behind out l.lacks }
  where
    behind :
        (ts : List ProfileType)
        → has_alloc_space ts ≡ false
        → has_alloc_space (ts ++ t ∷ []) ≡ false
    behind [] e = rw h refl
    behind (x ∷ ts) e = ground (arith, behind ts)
keeps {out} false t h l = l

-- The profile of allocated space is never asked for, whatever the options are.
alloc_space_missing : (p : Profilers) → has_alloc_space (pyroscope_types p) ≡ false
unfolding pyroscope_types
alloc_space_missing p =
    let start : LacksAllocSpace [] = record { lacks = refl } in
    (keeps p.mutex_duration profile_mutex_duration refl (
      keeps p.mutex_count profile_mutex_count refl (
        keeps p.block_duration profile_block_duration refl (
          keeps p.block_count profile_block_count refl (
            keeps p.goroutines profile_goroutines refl (
              keeps p.inuse_space profile_inuse_space refl (
                keeps p.inuse_objects profile_inuse_objects refl (
                  keeps p.alloc_space profile_inuse_space refl (
                    keeps p.alloc_objects profile_alloc_objects refl
                      (keeps p.cpu profile_cpu refl start)))))))))).lacks

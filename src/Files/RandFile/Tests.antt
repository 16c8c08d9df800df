-- ===== src/Files/RandFile/Tests.antt =====
-- Runs of CreateRandFile, and its theorem at a concrete input.
use gofrog.Prelude.{
  ℕ, zero, suc, ◌+◌, ◌≡◌, refl, pos, negsuc, [], ◌∷◌, length, none, some, Bytes, inl, inr, codes,
  arith,
}
use gofrog.Files.RandFile.{RandDevice, create_rand_file, not_made, create_random_len_file}
use gofrog.Files.RandFile.Filled.{IsSound, create_rand_file-size}

abbrev zeros : ℕ → Bytes
zeros zero = []
zeros (suc n) = 0 ∷ zeros n

length-zeros : (n : ℕ) → length (zeros n) ≡ n
length-zeros zero = refl
length-zeros (suc n) = omega (arith, length-zeros n)

-- A file is its size, and closing it fails.
abbrev device : RandDevice ℕ ℕ
device = record {
  create = λ path. inr 0;
  read = λ i. inr (zeros 4096);
  write = λ w p. (w + length p, none);
  flush = λ w. (w, none);
  stat_size = λ w. inr w;
  close_error = λ w. some 7;
}

device-IsSound : IsSound device (λ w. w)
device-IsSound = record {
  block = λ i. zeros 4096;
  put = λ w p. w + length p;
  reads = λ i. refl;
  whole = λ i. length-zeros 4096;
  writes = λ w p. refl;
  grows = λ w p. refl;
}

negative :
    create_rand_file device 0 [] (negsuc 0) ≡ some (some (record { content = 0; size = 0 }), some 7)
unfolding create_rand_file
negative = refl

create_rand_file-size_example :
    (w : ℕ) × (create_rand_file device 3 [] (pos 4100)
      ≡ some (some (record { content = w; size = w }), some 7))
    × (w ≡ 0 + 4100)
create_rand_file-size_example =
    create_rand_file-size device (λ w. w) device-IsSound 2 4100 [] 0 (omega arith) (omega arith)
      refl (λ v. (refl, refl))

-- A file whose Close fails makes CreateRandomLenFile panic, though it has the right length.
not_closed :
    create_random_len_file device
      (record { create_temp = λ d p. inr p; rand_int = λ m. some (inr 0) })
      2
      (pos 9)
      []
      (codes "f")
    ≡ some (inl (not_made 7))
unfolding create_random_len_file create_rand_file
not_closed = refl

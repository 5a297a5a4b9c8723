-- ===== src/Cpu/Registros/Operaciones.antt =====
-- What SUM, SUB and MOV between registers leave in the registers.
use tp_2024_1c_pccsc.Common.{
  ℕ, ◌+◌, ◌-◌, ◌%◌, ◌^◌, ◌<◌, true, none, some, List, ◌≡◌, ◌≢◌, refl, ◌∙◌, ap, arith, leb,
  if◌then◌else◌, ◌>>=◌, ◌==◌, ==→≡, ==→ne, Bool-cases, inl, inr,
}
use tp_2024_1c_pccsc.Common.Texto.{texto}
use tp_2024_1c_pccsc.FileSystem.{igual}
use tp_2024_1c_pccsc.Buffer.{RegistrosCpu}
use tp_2024_1c_pccsc.Cpu.Numeros.{contar_digitos}
use tp_2024_1c_pccsc.Cpu.Numeros.IdaVuelta.{magnitud, int_to_cadena_lem}
use tp_2024_1c_pccsc.Cpu.Registros.{
  TiposDeDato, uint8, uint32, Registro, obtener_tipo, obtener_direccion_memoria, valor, asignar,
  mismo_tipo, convertir, obtener_valor_registro, set, set_numero, sum, sub, reg_ax, reg_bx, reg_cx,
  reg_dx, reg_eax, reg_ebx, reg_ecx, reg_edx, reg_si, reg_di, reg_pc,
}

abbrev pub tipo_registro : Registro → TiposDeDato
tipo_registro reg_ax = uint8
tipo_registro reg_bx = uint8
tipo_registro reg_cx = uint8
tipo_registro reg_dx = uint8
tipo_registro _ = uint32

-- A text that is the name of a register.
pub record Nombra (texto : List ℕ) (d : Registro) : Type 0 where
  pub direccion : obtener_direccion_memoria texto ≡ some d
  pub tipo : obtener_tipo texto ≡ some (tipo_registro d)

mismo_tipo_refl : (t : TiposDeDato) → mismo_tipo t t ≡ true
mismo_tipo_refl uint8 = refl
mismo_tipo_refl uint32 = refl

pub obtener_valor_registro_lem :
    (n : List ℕ) (d : Registro) (r : RegistrosCpu)
    → Nombra n d
    → obtener_valor_registro n r ≡ some (valor d r)
unfolding obtener_valor_registro
obtener_valor_registro_lem n d r h = rw (h.tipo, ◌>>=◌) (rw (h.direccion, ◌>>=◌) refl)

set_numero_lem :
    (n : List ℕ) (d : Registro) (num : ℕ) (r : RegistrosCpu)
    → Nombra n d
    → num < 2 ^ 32
    → num ≢ 2 ^ 31
    → set_numero n num r ≡ some (asignar d (convertir (tipo_registro d) (magnitud num)) r)
unfolding set_numero set
set_numero_lem n d num r h a b =
    let (l, s, el, es, v) = int_to_cadena_lem num a b in
    rw (el, ◌>>=◌)
      (rw (es, ◌>>=◌)
        (rw (h.tipo, ◌>>=◌)
          (rw (h.direccion, ◌>>=◌)
            (ap (λ z. some (asignar d (convertir (tipo_registro d) z) r)) v))))

-- The least `int` has no text.
set_numero_minimo :
    (n : List ℕ) (num : ℕ) (r : RegistrosCpu) → num ≡ 2 ^ 31 → set_numero n num r ≡ none
unfolding set_numero contar_digitos
set_numero_minimo n num r h = rw h refl

igual_tipo : {s t : TiposDeDato} → some s ≡ some t → s ≡ t
igual_tipo e = cc

nada : {t : TiposDeDato} → none ≡ some t → ⊥
nada e = cc

-- Every name that `obtener_tipo` accepts is a register's for `obtener_direccion_memoria` too, and of
-- that type: the pointer that the instructions follow is not null.
pub obtener_tipo-Nombra :
    (n : List ℕ) (t : TiposDeDato)
    → obtener_tipo n ≡ some t
    → (d : Registro) × Nombra n d × (tipo_registro d ≡ t)
unfolding obtener_tipo obtener_direccion_memoria
obtener_tipo-Nombra n t h = elim (Bool-cases (igual n (texto "AX"))) [
  | inl y ↦ (
    reg_ax,
    record { direccion = rw (y) refl; tipo = rw (y) refl },
    (let z = (rw (y) at h) in igual_tipo z),
  )
  | inr z0 ↦ elim (Bool-cases (igual n (texto "BX"))) [
    | inl y ↦ (
      reg_bx,
      record { direccion = rw (z0, y) refl; tipo = rw (z0, y) refl },
      (let z = (rw (z0, y) at h) in igual_tipo z),
    )
    | inr z1 ↦ elim (Bool-cases (igual n (texto "CX"))) [
      | inl y ↦ (
        reg_cx,
        record { direccion = rw (z0, z1, y) refl; tipo = rw (z0, z1, y) refl },
        (let z = (rw (z0, z1, y) at h) in igual_tipo z),
      )
      | inr z2 ↦ elim (Bool-cases (igual n (texto "DX"))) [
        | inl y ↦ (
          reg_dx,
          record { direccion = rw (z0, z1, z2, y) refl; tipo = rw (z0, z1, z2, y) refl },
          (let z = (rw (z0, z1, z2, y) at h) in igual_tipo z),
        )
        | inr z3 ↦ elim (Bool-cases (igual n (texto "EAX"))) [
          | inl y ↦ (
            reg_eax,
            record { direccion = rw (z0, z1, z2, z3, y) refl; tipo = rw (z0, z1, z2, z3, y) refl },
            (let z = (rw (z0, z1, z2, z3, y) at h) in igual_tipo z),
          )
          | inr z4 ↦ elim (Bool-cases (igual n (texto "EBX"))) [
            | inl y ↦ (
              reg_ebx,
              record {
                direccion = rw (z0, z1, z2, z3, z4, y) refl;
                tipo = rw (z0, z1, z2, z3, z4, y) refl;
              },
              (let z = (rw (z0, z1, z2, z3, z4, y) at h) in igual_tipo z),
            )
            | inr z5 ↦ elim (Bool-cases (igual n (texto "ECX"))) [
              | inl y ↦ (
                reg_ecx,
                record {
                  direccion = rw (z0, z1, z2, z3, z4, z5, y) refl;
                  tipo = rw (z0, z1, z2, z3, z4, z5, y) refl;
                },
                (let z = (rw (z0, z1, z2, z3, z4, z5, y) at h) in igual_tipo z),
              )
              | inr z6 ↦ elim (Bool-cases (igual n (texto "EDX"))) [
                | inl y ↦ (
                  reg_edx,
                  record {
                    direccion = rw (z0, z1, z2, z3, z4, z5, z6, y) refl;
                    tipo = rw (z0, z1, z2, z3, z4, z5, z6, y) refl;
                  },
                  (let z = (rw (z0, z1, z2, z3, z4, z5, z6, y) at h) in igual_tipo z),
                )
                | inr z7 ↦ elim (Bool-cases (igual n (texto "SI"))) [
                  | inl y ↦ (
                    reg_si,
                    record {
                      direccion = rw (z0, z1, z2, z3, z4, z5, z6, z7, y) refl;
                      tipo = rw (z0, z1, z2, z3, z4, z5, z6, z7, y) refl;
                    },
                    (let z = (rw (z0, z1, z2, z3, z4, z5, z6, z7, y) at h) in igual_tipo z),
                  )
                  | inr z8 ↦ elim (Bool-cases (igual n (texto "DI"))) [
                    | inl y ↦ (
                      reg_di,
                      record {
                        direccion = rw (z0, z1, z2, z3, z4, z5, z6, z7, z8, y) refl;
                        tipo = rw (z0, z1, z2, z3, z4, z5, z6, z7, z8, y) refl;
                      },
                      (let z = (rw (z0, z1, z2, z3, z4, z5, z6, z7, z8, y) at h) in igual_tipo z),
                    )
                    | inr z9 ↦ elim (Bool-cases (igual n (texto "PC"))) [
                      | inl y ↦ (
                        reg_pc,
                        record {
                          direccion = rw (z0, z1, z2, z3, z4, z5, z6, z7, z8, z9, y) refl;
                          tipo = rw (z0, z1, z2, z3, z4, z5, z6, z7, z8, z9, y) refl;
                        },
                        (let z = (rw (z0, z1, z2, z3, z4, z5, z6, z7, z8, z9, y) at h) in
                            igual_tipo z),
                      )
                      | inr z10 ↦ absurd (
                          let z = (rw (z0, z1, z2, z3, z4, z5, z6, z7, z8, z9, z10) at h) in nada z)
                    ]
                  ]
                ]
              ]
            ]
          ]
        ]
      ]
    ]
  ]
]

module _ (n_destino n_origen : List ℕ) (d o : Registro) (r : RegistrosCpu) (hd : Nombra n_destino d)
    (ho : Nombra n_origen o) (ht : tipo_registro o ≡ tipo_registro d) where
  iguales : mismo_tipo (tipo_registro o) (tipo_registro d) ≡ true
  iguales = rw ht (mismo_tipo_refl (tipo_registro d))

  -- SUM of two registers of one type puts into the first the sum modulo 2^32, read as an `int` and
  -- without its sign, cut to the size of the register; at 2^31 exactly it has no result.
  pub sum_lem : sum n_destino n_origen r ≡ (
      if (valor d r + valor o r) % 2 ^ 32 == 2 ^ 31
      then none
      else some
          (asignar d (convertir (tipo_registro d) (magnitud ((valor d r + valor o r) % 2 ^ 32))) r))
  unfolding sum
  sum_lem =
      let x = (valor d r + valor o r) % 2 ^ 32 in
      rw (ho.tipo, ◌>>=◌)
        (rw (hd.tipo, ◌>>=◌)
          (rw (obtener_valor_registro_lem n_origen o r ho, ◌>>=◌)
            (rw (obtener_valor_registro_lem n_destino d r hd, ◌>>=◌)
              (rw iguales (elim (Bool-cases (x == 2 ^ 31)) [
                | inl y ↦ rw y (set_numero_minimo n_destino x r (==→≡ x (2 ^ 31) y))
                | inr z ↦
                    rw z (set_numero_lem n_destino d x r hd (omega arith) (==→ne x (2 ^ 31) z))
              ])))))

  -- SUB of two registers of one type whose values are less than 2^31 apart puts into the first their
  -- distance, whichever is greater, cut to the size of the register.
  pub sub_lem :
      valor d r < 2 ^ 32
      → valor o r < 2 ^ 32
      → valor d r < valor o r + 2 ^ 31
      → valor o r < valor d r + 2 ^ 31
      → sub n_destino n_origen r
        ≡ some (
            asignar d
              (convertir (tipo_registro d) (
                if leb (valor o r) (valor d r)
                then valor d r - valor o r
                else valor o r - valor d r))
              r)
  unfolding sub
  sub_lem h1 h2 h3 h4 =
      let x = (valor d r + 2 ^ 32 - valor o r) % 2 ^ 32 in
      let m : magnitud x
          ≡ (if leb (valor o r) (valor d r) then valor d r - valor o r else valor o r - valor d r) =
        ground arith in
      let ne : x ≢ 2 ^ 31 = ground arith in
      rw (ho.tipo, ◌>>=◌)
        (rw (hd.tipo, ◌>>=◌)
          (rw (obtener_valor_registro_lem n_origen o r ho, ◌>>=◌)
            (rw (obtener_valor_registro_lem n_destino d r hd, ◌>>=◌)
              (rw iguales (
                set_numero_lem n_destino d x r hd (omega arith) ne
                ∙ ap (λ z. some (asignar d (convertir (tipo_registro d) z) r)) m)))))

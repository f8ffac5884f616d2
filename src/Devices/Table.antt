-- ===== src/Devices/Table.antt =====
-- The table `Devices` of software/src/fronius_device_info.cpp.
use dbus_fronius.Base.{ℕ, Bool, true, false, List, [], ◌∷◌}
use Prim.Native.String.{String}

pub record FroniusDeviceInfo : Type 0 where
  pub device_type : ℕ
  pub phase_count : ℕ
  pub is_multi_string : Bool
  pub name : String

abbrev device : ℕ → ℕ → Bool → String → FroniusDeviceInfo
device t phases multi name = record {
  device_type = t;
  phase_count = phases;
  is_multi_string = multi;
  name = name;
}

abbrev pub devices : List FroniusDeviceInfo
devices =
    device 71 3 false "FRONIUS Symo 15.0-3 208"
    ∷ device 72 3 false "FRONIUS Eco 27.0-3-S"
    ∷ device 73 3 false "FRONIUS Eco 25.0-3-S"
    ∷ device 74 1 false "Remote Plant"
    ∷ device 75 1 false "Fronius Primo 6.0-1"
    ∷ device 76 1 false "Fronius Primo 5.0-1"
    ∷ device 77 1 false "Fronius Primo 4.6-1"
    ∷ device 78 1 false "Fronius Primo 4.0-1"
    ∷ device 79 1 false "Fronius Primo 3.6-1"
    ∷ device 80 1 false "Fronius Primo 3.5-1"
    ∷ device 81 1 false "Fronius Primo 3.0-1"
    ∷ device 82 3 false "Fronius Symo Hybrid 4.0-3-S"
    ∷ device 83 3 false "Fronius Symo Hybrid 3.0-3-S"
    ∷ device 84 1 false "Fronius IG Plus 120 V-1"
    ∷ device 85 1 false "Fronius Primo 3.8-1 208-240"
    ∷ device 86 1 false "Fronius Primo 5.0-1 208-240"
    ∷ device 87 1 false "Fronius Primo 6.0-1 208-240"
    ∷ device 88 1 false "Fronius Primo 7.6-1 208-240"
    ∷ device 89 3 true "Fronius Symo 24.0-3 USA Dummy"
    ∷ device 90 3 true "Fronius Symo 24.0-3 480"
    ∷ device 91 3 true "Fronius Symo 22.7-3 480"
    ∷ device 92 3 true "Fronius Symo 20.0-3 480"
    ∷ device 93 3 true "Fronius Symo 17.5-3 480"
    ∷ device 94 3 true "Fronius Symo 15.0-3 480"
    ∷ device 95 3 true "Fronius Symo 12.5-3 480"
    ∷ device 96 3 true "Fronius Symo 10.0-3 480"
    ∷ device 97 3 true "Fronius Symo 12.0-3 208-240"
    ∷ device 98 3 true "Fronius Symo 10.0-3 208-240"
    ∷ device 99 3 false "Fronius Symo Hybrid 5.0-3-S"
    ∷ device 100 1 false "Fronius Primo 8.2-1 Dummy"
    ∷ device 101 1 false "Fronius Primo 8.2-1 208-240"
    ∷ device 102 1 false "Fronius Primo 8.2-1"
    ∷ device 103 3 false "Fronius Agilo TL 360.0-3"
    ∷ device 104 3 false "Fronius Agilo TL 460.0-3"
    ∷ device 105 3 true "Fronius Symo 7.0-3-M"
    ∷ device 106 1 false "Fronius Galvo 3.1-1 208-240"
    ∷ device 107 1 false "Fronius Galvo 2.5-1 208-240"
    ∷ device 108 1 false "Fronius Galvo 2.0-1 208-240"
    ∷ device 109 1 false "Fronius Galvo 1.5-1 208-240"
    ∷ device 110 3 true "Fronius Symo 6.0-3-M"
    ∷ device 111 3 true "Fronius Symo 4.5-3-M"
    ∷ device 112 3 true "Fronius Symo 3.7-3-M"
    ∷ device 113 3 true "Fronius Symo 3.0-3-M"
    ∷ device 114 3 true "Fronius Symo 17.5-3-M"
    ∷ device 115 3 true "Fronius Symo 15.0-3-M"
    ∷ device 116 3 false "Fronius Agilo 75.0-3 Outdoor"
    ∷ device 117 3 false "Fronius Agilo 100.0-3 Outdoor"
    ∷ device 118 1 false "Fronius IG Plus 55 V-1"
    ∷ device 119 2 false "Fronius IG Plus 55 V-2"
    ∷ device 120 3 true "Fronius Symo 20.0-3 Dummy"
    ∷ device 121 3 true "Fronius Symo 20.0-3-M"
    ∷ device 122 3 true "Fronius Symo 5.0-3-M"
    ∷ device 123 3 true "Fronius Symo 8.2-3-M"
    ∷ device 124 3 true "Fronius Symo 6.7-3-M"
    ∷ device 125 3 true "Fronius Symo 5.5-3-M"
    ∷ device 126 3 false "Fronius Symo 4.5-3-S"
    ∷ device 127 3 false "Fronius Symo 3.7-3-S"
    ∷ device 128 2 false "Fronius IG Plus 60 V-2"
    ∷ device 129 1 false "Fronius IG Plus 60 V-1"
    ∷ device 130 3 false "SPR 8001F-3 EU"
    ∷ device 131 1 false "Fronius IG Plus 25 V-1"
    ∷ device 132 3 false "Fronius IG Plus 100 V-3"
    ∷ device 133 3 false "Fronius Agilo 100.0-3"
    ∷ device 134 1 false "SPR 3001F-1 EU"
    ∷ device 135 3 false "Fronius IG Plus V/A 10.0-3 Delta"
    ∷ device 136 1 false "Fronius IG 50"
    ∷ device 137 1 false "Fronius IG Plus 30 V-1"
    ∷ device 138 1 false "SPR-11401f-1 UNI"
    ∷ device 139 3 false "SPR-12001f-3 WYE277"
    ∷ device 140 3 false "SPR-11401f-3 Delta"
    ∷ device 141 1 false "SPR-10001f-1 UNI"
    ∷ device 142 1 false "SPR-7501f-1 UNI"
    ∷ device 143 1 false "SPR-6501f-1 UNI"
    ∷ device 144 1 false "SPR-3801f-1 UNI"
    ∷ device 145 1 false "SPR-3301f-1 UNI"
    ∷ device 146 3 false "SPR 12001F-3 EU"
    ∷ device 147 3 false "SPR 10001F-3 EU"
    ∷ device 148 2 false "SPR 8001F-2 EU"
    ∷ device 149 2 false "SPR 6501F-2 EU"
    ∷ device 150 1 false "SPR 4001F-1 EU"
    ∷ device 151 1 false "SPR 3501F-1 EU"
    ∷ device 152 1 false "Fronius CL 60.0 WYE277 Dummy"
    ∷ device 153 1 false "Fronius CL 55.5 Delta Dummy"
    ∷ device 154 1 false "Fronius CL 60.0 Dummy"
    ∷ device 155 3 false "Fronius IG Plus V 12.0-3 Dummy"
    ∷ device 156 1 false "Fronius IG Plus V 7.5-1 Dummy"
    ∷ device 157 1 false "Fronius IG Plus V 3.8-1 Dummy"
    ∷ device 158 3 false "Fronius IG Plus 150 V-3 Dummy"
    ∷ device 159 2 false "Fronius IG Plus 100 V-2 Dummy"
    ∷ device 160 1 false "Fronius IG Plus 50 V-1 Dummy"
    ∷ device 161 3 false "Fronius IG Plus V/A 12.0-3 WYE"
    ∷ device 162 3 false "Fronius IG Plus V/A 11.4-3 Delta"
    ∷ device 163 1 false "Fronius IG Plus V/A 11.4-1 UNI"
    ∷ device 164 1 false "Fronius IG Plus V/A 10.0-1 UNI"
    ∷ device 165 1 false "Fronius IG Plus V/A 7.5-1 UNI"
    ∷ device 166 1 false "Fronius IG Plus V/A 6.0-1 UNI"
    ∷ device 167 1 false "Fronius IG Plus V/A 5.0-1 UNI"
    ∷ device 168 1 false "Fronius IG Plus V/A 3.8-1 UNI"
    ∷ device 169 1 false "Fronius IG Plus V/A 3.0-1 UNI"
    ∷ device 170 3 false "Fronius IG Plus 150 V-3"
    ∷ device 171 3 false "Fronius IG Plus 120 V-3"
    ∷ device 172 2 false "Fronius IG Plus 100 V-2"
    ∷ device 173 1 false "Fronius IG Plus 100 V-1"
    ∷ device 174 2 false "Fronius IG Plus 70 V-2"
    ∷ device 175 1 false "Fronius IG Plus 70 V-1"
    ∷ device 176 1 false "Fronius IG Plus 50 V-1"
    ∷ device 177 1 false "Fronius IG Plus 35 V-1"
    ∷ device 178 3 false "SPR 11400f-3 208/240"
    ∷ device 179 1 false "SPR 12000f-277"
    ∷ device 180 1 false "SPR 10000f"
    ∷ device 181 1 false "SPR 10000F EU"
    ∷ device 182 1 false "Fronius CL 33.3 Delta"
    ∷ device 183 1 false "Fronius CL 44.4 Delta"
    ∷ device 184 1 false "Fronius CL 55.5 Delta"
    ∷ device 185 1 false "Fronius CL 36.0 WYE277"
    ∷ device 186 1 false "Fronius CL 48.0 WYE277"
    ∷ device 187 1 false "Fronius CL 60.0 WYE277"
    ∷ device 188 1 false "Fronius CL 36.0"
    ∷ device 189 1 false "Fronius CL 48.0"
    ∷ device 190 1 false "Fronius IG TL 3.0"
    ∷ device 191 1 false "Fronius IG TL 4.0"
    ∷ device 192 1 false "Fronius IG TL 5.0"
    ∷ device 193 1 false "Fronius IG TL 3.6"
    ∷ device 194 1 false "Fronius IG TL Dummy"
    ∷ device 195 1 false "Fronius IG TL 4.6"
    ∷ device 196 1 false "SPR 12000F EU"
    ∷ device 197 1 false "SPR 8000F EU"
    ∷ device 198 1 false "SPR 6500F EU"
    ∷ device 199 1 false "SPR 4000F EU"
    ∷ device 200 1 false "SPR 3300F EU"
    ∷ device 201 1 false "Fronius CL 60.0"
    ∷ device 202 1 false "SPR 12000f"
    ∷ device 203 1 false "SPR 8000f"
    ∷ device 204 1 false "SPR 6500f"
    ∷ device 205 1 false "SPR 4000f"
    ∷ device 206 1 false "SPR 3300f"
    ∷ device 207 3 false "Fronius IG Plus 12.0-3 WYE277"
    ∷ device 208 1 false "Fronius IG Plus 50"
    ∷ device 209 1 false "Fronius IG Plus 100"
    ∷ device 210 1 false "Fronius IG Plus 100"
    ∷ device 211 1 false "Fronius IG Plus 150"
    ∷ device 212 1 false "Fronius IG Plus 35"
    ∷ device 213 1 false "Fronius IG Plus 70"
    ∷ device 214 1 false "Fronius IG Plus 70"
    ∷ device 215 1 false "Fronius IG Plus 120"
    ∷ device 216 1 false "Fronius IG Plus 3.0-1 UNI"
    ∷ device 217 1 false "Fronius IG Plus 3.8-1 UNI"
    ∷ device 218 1 false "Fronius IG Plus 5.0-1 UNI"
    ∷ device 219 1 false "Fronius IG Plus 6.0-1 UNI"
    ∷ device 220 1 false "Fronius IG Plus 7.5-1 UNI"
    ∷ device 221 1 false "Fronius IG Plus 10.0-1 UNI"
    ∷ device 222 1 false "Fronius IG Plus 11.4-1 UNI"
    ∷ device 223 3 false "Fronius IG Plus 11.4-3 Delta"
    ∷ device 224 1 false "Fronius Galvo 3.0-1"
    ∷ device 225 1 false "Fronius Galvo 2.5-1"
    ∷ device 226 1 false "Fronius Galvo 2.0-1"
    ∷ device 227 1 false "Fronius IG 4500-LV"
    ∷ device 228 1 false "Fronius Galvo 1.5-1"
    ∷ device 229 1 false "Fronius IG 2500-LV"
    ∷ device 230 3 false "Fronius Agilo 75.0-3"
    ∷ device 231 3 false "Fronius Agilo 100.0-3 Dummy"
    ∷ device 232 3 true "Fronius Symo 10.0-3-M"
    ∷ device 233 3 true "Fronius Symo 12.5-3-M"
    ∷ device 234 1 false "Fronius IG 5100"
    ∷ device 235 1 false "Fronius IG 4000"
    ∷ device 236 3 true "Fronius Symo 8.2-3-M Dummy"
    ∷ device 237 1 false "Fronius IG 3000"
    ∷ device 238 1 false "Fronius IG 2000"
    ∷ device 239 1 false "Fronius Galvo 3.1-1 Dummy"
    ∷ device 240 3 false "Fronius IG Plus 80 V-3"
    ∷ device 241 3 false "Fronius IG Plus 60 V-3"
    ∷ device 242 3 false "Fronius IG Plus 55 V-3"
    ∷ device 243 1 false "Fronius IG 60 ADV"
    ∷ device 244 1 false "Fronius IG 500"
    ∷ device 245 1 false "Fronius IG 400"
    ∷ device 246 1 false "Fronius IG 300"
    ∷ device 247 3 false "Fronius Symo 3.0-3-S"
    ∷ device 248 1 false "Fronius Galvo 3.1-1"
    ∷ device 249 1 false "Fronius IG 60 HV"
    ∷ device 250 1 false "Fronius IG 40"
    ∷ device 251 1 false "Fronius IG 30 Dummy"
    ∷ device 252 1 false "Fronius IG 30"
    ∷ device 253 1 false "Fronius IG 20"
    ∷ device 254 1 false "Fronius IG 15"
    ∷ []
